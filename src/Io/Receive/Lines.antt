-- ===== src/Io/Receive/Lines.antt =====
-- The lines that the reader gets are the lines of the input, each cut to `max - 1` bytes.
use mathlib.Core.List.{append_assoc, append-nil}
use kstep.Prelude.{
  ℕ, zero, suc, ◌+◌, ◌≤◌, Bool, List, [], ◌∷◌, ◌++◌, map, length, length-append, length-replicate,
  ltb, ◌==◌, if◌then◌else◌, ◌≡◌, refl, sym, ap, ◌∙◌, arith, ok, >>=-eq-ok, Bool-cases, inl, inr,
}
use kstep.Text.{Bytes, tokens, cons_token}
use kstep.Io.Receive.{
  no_input, ring_size, rx_done, rx_take, Reader, accept, read_turn, Step, arrive, turn, session,
}
use kstep.Io.Receive.Ring.{IsValid, waiting, done-waiting, take-waiting, done-returns}

-- The first `max - 1` bytes of a line.
abbrev pub cut_to : ℕ → Bytes → Bytes
cut_to zero line = []
cut_to (suc zero) line = []
cut_to (suc (suc n)) [] = []
cut_to (suc (suc n)) (c ∷ line) = c ∷ cut_to (suc n) line

-- The reader's line and lines after the bytes of `s`.
feed : ℕ → List Bytes × Bytes → Bytes → List Bytes × Bytes
feed max p [] = p
feed max p (c ∷ s) =
    let ended = feed max (p.0 ++ (p.1 ∷ []), []) s in
    let longer = feed max (p.0, if ltb (length p.1 + 1) max then p.1 ++ (c ∷ []) else p.1) s in
    if c == b'\n' then ended else longer

abbrev all_of : List Bytes × Bytes → List Bytes
all_of p = p.0 ++ (p.1 ∷ [])

abbrev behind : Bytes → List Bytes → List Bytes
behind l [] = l ∷ []
behind l (t ∷ ts) = (l ++ t) ∷ ts

cut_to-snoc :
    (max : ℕ) (l : Bytes) (c : ℕ)
    → cut_to max (l ++ (c ∷ []))
      ≡ (if ltb (length (cut_to max l) + 1) max then cut_to max l ++ (c ∷ []) else cut_to max l)
cut_to-snoc zero l c = refl
cut_to-snoc (suc zero) l c = ground arith
cut_to-snoc (suc (suc n)) [] c = ground arith
cut_to-snoc (suc (suc n)) (x ∷ l) c = ground (arith, cut_to-snoc (suc n) l c)

behind-cons :
    (l : Bytes) (c : ℕ) (ts : List Bytes) → behind l (cons_token c ts) ≡ behind (l ++ (c ∷ [])) ts
unfolding cons_token
behind-cons l c [] = refl
behind-cons l c (t ∷ ts) = ap (λ x. x ∷ ts) (sym (append_assoc l (c ∷ []) t))

behind-nil_cons : (c : ℕ) (ts : List Bytes) → behind [] (cons_token c ts) ≡ cons_token c ts
unfolding cons_token
behind-nil_cons c [] = refl
behind-nil_cons c (t ∷ ts) = refl

behind-nil : (nl : ℕ → Bool) (s : Bytes) → behind [] (tokens nl s) ≡ tokens nl s
unfolding tokens
behind-nil nl [] = refl
behind-nil nl (c ∷ s) = elim (Bool-cases (nl c)) [
  | inl e ↦ rw e
  | inr e ↦ rw e (behind-nil_cons c (tokens nl s))
]

cut_to-nil : (max : ℕ) → cut_to max [] ≡ []
cut_to-nil zero = refl
cut_to-nil (suc zero) = refl
cut_to-nil (suc (suc n)) = refl

feed-tokens :
    (max : ℕ) (ls : List Bytes) (l s : Bytes)
    → all_of (feed max (ls, cut_to max l) s)
      ≡ ls ++ map (cut_to max) (behind l (tokens (λ c. c == b'\n') s))
unfolding feed tokens
feed-tokens max ls l [] = ap (λ t. ls ++ (cut_to max t ∷ [])) (sym (append-nil l))
feed-tokens max ls l (c ∷ s) = elim (Bool-cases (c == b'\n')) [
  | inl e ↦
      let h = feed-tokens max (ls ++ (cut_to max l ∷ [])) [] s in
      rw (e, append-nil l)
        ((rw (cut_to-nil max, behind-nil (λ d. d == b'\n') s) at h)
          ∙ append_assoc ls (cut_to max l ∷ []) (map (cut_to max) (tokens (λ d. d == b'\n') s)))
  | inr e ↦
      rw (e, behind-cons l c (tokens (λ d. d == b'\n') s), ← cut_to-snoc max l c)
        (feed-tokens max ls (l ++ (c ∷ [])) s)
]

-- What arrives in a session.
abbrev pub arrived : List Step → Bytes
arrived [] = []
arrived (arrive cs ∷ steps) = cs ++ arrived steps
arrived (turn ∷ steps) = arrived steps

abbrev pair_of : Reader → List Bytes × Bytes
pair_of r = (r.lines, r.line)

feed-accept :
    (max c : ℕ) (r : Reader) (s : Bytes)
    → feed max (pair_of r) (c ∷ s) ≡ feed max (pair_of (accept max c r)) s
unfolding feed accept
feed-accept max c r s = ground arith

accept-rx : (max c : ℕ) (r : Reader) → (accept max c r).rx ≡ r.rx
unfolding accept
accept-rx max c r = ground arith

session-feed :
    (max : ℕ) (steps : List Step) (r : Reader) {r' : Reader}
    → IsValid r.rx
    → session max r steps ≡ ok r'
    → (taken : Bytes) × (waiting r.rx ++ arrived steps ≡ taken ++ waiting r'.rx)
      × (feed max (pair_of r) taken ≡ pair_of r')
unfolding session feed
session-feed max [] r {r'} v h =
    let same : r ≡ r' = ground arith in
    ([], rw (← same) (append-nil (waiting r.rx)), ap pair_of same)
session-feed max (arrive cs ∷ steps) r v h =
    let (rx, ea, eb) = >>=-eq-ok (rx_done r.rx cs) _ h in
    let (va, wa) = done-waiting cs v ea in
    let (taken, w, f) = session-feed max steps (record r { rx = rx }) va eb in
    (
      taken,
      sym (append_assoc (waiting r.rx) cs (arrived steps))
          ∙ ap (λ t. t ++ arrived steps) (sym wa)
          ∙ w,
      f,
    )
session-feed max (turn ∷ steps) r v h = elim (Bool-cases (r.rx.head == r.rx.tail)) [
  | inl e ↦ session-feed max steps r v (rw (e, read_turn) at h)
  | inr e ↦
      let (c, rest) = rx_take r.rx in
      let (vt, wt) = take-waiting v (ground (arith, e)) in
      let next = accept max c (record r { rx = rest }) in
      let same = accept-rx max c (record r { rx = rest }) in
      let (taken, w, f) = session-feed max steps next (rw same vt) (rw (e, read_turn) at h) in
      (
        c ∷ taken,
        ap (λ t. t ++ arrived steps) wt ∙ ap (◌∷◌ c) ((rw same at w)),
        feed-accept max c (record r { rx = rest }) taken ∙ f,
      )
]

-- A reader before any input.
abbrev pub fresh : Reader
fresh = record { rx = no_input; line = []; lines = [] }

fresh-IsValid : IsValid fresh.rx
fresh-IsValid = record {
  slots = length-replicate {A = ℕ} ring_size 0;
  head_lt = omega arith;
  tail_lt = omega arith;
  fits = omega arith;
}

-- However arrivals and turns interleave, as long as the ring does not overflow: what was taken and
-- what is waiting is what arrived, in its order, and the lines returned, with the line that the
-- reader is at, are the lines of what was taken, each cut to `max - 1` bytes.
pub session-lines :
    (max : ℕ) (steps : List Step) {r : Reader}
    → session max fresh steps ≡ ok r
    → (taken : Bytes) × (arrived steps ≡ taken ++ waiting r.rx)
      × (r.lines ++ (r.line ∷ []) ≡ map (cut_to max) (tokens (λ c. c == b'\n') taken))
session-lines max steps h =
    let (taken, w, f) = session-feed max steps fresh fresh-IsValid h in
    let read = feed-tokens max [] [] taken in
    (
      taken,
      w,
      ap all_of (sym f) ∙ (rw (cut_to-nil max, behind-nil (λ c. c == b'\n') taken) at read),
    )

session-goes :
    (max : ℕ) (steps : List Step) (r : Reader)
    → IsValid r.rx
    → length (waiting r.rx) + length (arrived steps) ≤ ring_size
    → (r' : Reader) × (session max r steps ≡ ok r')
unfolding session
session-goes max [] r v h = (r, refl)
session-goes max (arrive cs ∷ steps) r v h =
    let all = length-append cs (arrived steps) in
    let (rx, e) = done-returns cs r.rx v (omega (arith, h, all)) in
    let (va, wa) = done-waiting cs v e in
    let longer = ap length wa ∙ length-append (waiting r.rx) cs in
    let (r', er) =
      session-goes max steps (record r { rx = rx }) va (omega (arith, h, all, longer)) in
    (r', rw e er)
session-goes max (turn ∷ steps) r v h = elim (Bool-cases (r.rx.head == r.rx.tail)) [
  | inl e ↦ let (r', er) = session-goes max steps r v h in (r', rw (e, read_turn) er)
  | inr e ↦
      let (c, rest) = rx_take r.rx in
      let (vt, wt) = take-waiting v (ground (arith, e)) in
      let next = accept max c (record r { rx = rest }) in
      let same = accept-rx max c (record r { rx = rest }) in
      let one = ap length wt in
      let (r', er) = session-goes max steps next (rw same vt) (rw same (omega (arith, h, one))) in
      (r', rw (e, read_turn) er)
]

-- As long as at most 4096 bytes arrive in all, the machine is not stopped, whenever the reader has
-- its turns.
pub session-returns :
    (max : ℕ) (steps : List Step)
    → length (arrived steps) ≤ ring_size
    → (r : Reader) × (session max fresh steps ≡ ok r)
session-returns max steps h = session-goes max steps fresh fresh-IsValid (omega (arith, h))
