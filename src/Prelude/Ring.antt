-- ===== src/Prelude/Ring.antt =====
-- A ring addressed by two free-running 32-bit counters, as the control queues and the input ring
-- are: slot `i % cap` for counter `i`, `wr - rd` entries, both counters wrapping at 2 ^ 32.
use Prim.Native.Nat.{ℕ, zero, suc, ◌+◌, ◌-◌, ◌%◌, ◌^◌, ◌≤◌, ◌<◌}
use mathlib.Core.Path.{◌≡◌, refl, sym, ap, ap₂, ◌∙◌}
use mathlib.Core.Logic.{◌≢◌}
use mathlib.Core.List.{List, [], ◌∷◌, ◌++◌}
use native.Mathlib.Omega.{arith}
use kstep.Prelude.Lists.{length, get_or, set, get_or-set_self, get_or-set_ne}

-- `u32` addition and subtraction
abbrev pub add_u32 : ℕ → ℕ → ℕ
add_u32 a b = (a + b) % 2 ^ 32

abbrev pub sub_u32 : ℕ → ℕ → ℕ
sub_u32 a b = (a + 2 ^ 32 - b) % 2 ^ 32

-- What makes a capacity fit the counters: wrapping at 2 ^ 32 keeps the slot, and fewer than `cap`
-- steps do not come back to a slot.
pub record FitsCounter (cap : ℕ) : Type 0 where
  pub small : cap < 2 ^ 32
  pub slot_lt : (a : ℕ) → a % cap < cap
  pub shift : (a k : ℕ) → (a % 2 ^ 32 + k) % cap ≡ (a + k) % cap
  pub distinct : (a k n : ℕ) → k < n → n < cap → (a + n) % cap ≢ (a + k) % cap

-- The number of entries between the counters.
abbrev pub count : ℕ → ℕ → ℕ
count rd wr = sub_u32 wr rd

module _ {A : Type 0} (cap : ℕ) (d : A) where
  -- the `n` entries from counter `rd` on, oldest first
  abbrev pub entries : List A → ℕ → ℕ → List A
  entries slots rd zero = []
  entries slots rd (suc n) = get_or slots (rd % cap) d ∷ entries slots (add_u32 rd 1) n

  pub length-entries : (slots : List A) (rd n : ℕ) → length (entries slots rd n) ≡ n
  length-entries slots rd zero = refl
  length-entries slots rd (suc n) = ap suc (length-entries slots (add_u32 rd 1) n)

  next_slot : FitsCounter cap → (rd k : ℕ) → (add_u32 rd 1 + k) % cap ≡ (rd + suc k) % cap
  next_slot f rd k = f.shift (rd + 1) k ∙ ap (λ t. t % cap) (omega arith)

  -- Writing the slot behind the last entry adds it, and leaves the others.
  entries-set :
      (slots : List A) (i rd n : ℕ) (x : A)
      → FitsCounter cap
      → cap ≤ length slots
      → n < cap
      → i ≡ (rd + n) % cap
      → entries (set slots i x) rd (suc n) ≡ entries slots rd n ++ (x ∷ [])
  entries-set slots i rd zero x f hs hn e =
      let at : rd % cap ≡ i = ap (λ t. t % cap) (omega arith) ∙ sym e in
      rw (at, get_or-set_self slots i x d (f_lt i e))
    where
      f_lt : (j : ℕ) → j ≡ (rd + 0) % cap → j < length slots
      f_lt j q = omega (arith, q, f.slot_lt (rd + 0))
  entries-set slots i rd (suc n) x f hs hn e =
      ap₂ ◌∷◌
        (get_or-set_ne slots i (rd % cap) x d (λ q.
          f.distinct rd 0 (suc n) (omega arith) hn (sym e ∙ q ∙ ap (λ t. t % cap) (omega arith))))
        (entries-set slots i (add_u32 rd 1) n x f hs (omega arith) (e ∙ sym (next_slot f rd n)))

  -- What is read at `rd` is the oldest entry, and the rest stay.
  pub entries_of_ne :
      (slots : List A) (rd wr : ℕ)
      → rd < 2 ^ 32
      → wr < 2 ^ 32
      → rd ≢ wr
      → entries slots rd (count rd wr)
        ≡ get_or slots (rd % cap) d ∷ entries slots (add_u32 rd 1) (count (add_u32 rd 1) wr)
  entries_of_ne slots rd wr hr hw ne =
      ap (entries slots rd) (let e : count rd wr ≡ suc (count (add_u32 rd 1) wr) = omega arith in e)

  pub entries-put :
      (slots : List A) (rd wr : ℕ) (x : A)
      → FitsCounter cap
      → cap ≤ length slots
      → rd < 2 ^ 32
      → wr < 2 ^ 32
      → count rd wr < cap
      → entries (set slots (wr % cap) x) rd (count rd (add_u32 wr 1))
        ≡ entries slots rd (count rd wr) ++ (x ∷ [])
  entries-put slots rd wr x f hs hr hw hc =
      let grown : count rd (add_u32 wr 1) ≡ suc (count rd wr) = omega (arith, f.small) in
      rw grown (
        entries-set slots (wr % cap) rd (count rd wr) x f hs hc (
          ap (λ t. t % cap) {x = wr} {y = (rd + count rd wr) % 2 ^ 32 + 0} (omega arith)
          ∙ f.shift (rd + count rd wr) 0
          ∙ ap (λ t. t % cap) (omega arith)))

-- The two capacities that the module uses.
pub eight_FitsCounter : FitsCounter 8
eight_FitsCounter = record {
  small = omega arith;
  slot_lt = λ a. omega arith;
  shift = λ a k. omega arith;
  distinct = λ a k n h l. omega arith;
}

pub page_FitsCounter : FitsCounter 4096
page_FitsCounter = record {
  small = omega arith;
  slot_lt = λ a. omega arith;
  shift = λ a k. omega arith;
  distinct = λ a k n h l. omega arith;
}
