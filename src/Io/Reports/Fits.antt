-- ===== src/Io/Reports/Fits.antt =====
-- The report of every CPU's runqueue fits its record.
use kstep.Prelude.{
  ℕ, zero, suc, ◌+◌, ◌*◌, ◌/◌, ◌%◌, ◌^◌, ◌≤◌, ◌<◌, ◌≡◌, true, [], ◌∷◌, ◌++◌, length, length-append,
  arith, ltb, ok, Bool-cases, inl, inr,
}
use native.Mathlib.Nat.{div-lt_iff_lt-mul, pow-succ'}
use kstep.Text.{Bytes, lit, strscpy, printed}
use kstep.Io.Json.{Field, text, string, buf_size}
use kstep.Io.Json.Render.{member, quoted, listed, rendered, stamp, send_record-rendered}
use kstep.Io.Reports.{llu, cpu_key, running_fields, running_report, output_nr_running}

-- A number below 10 ^ digits has at most so many digits.
length-printed :
    (digits fuel n : ℕ) (tail : Bytes)
    → n < 10 ^ suc digits
    → length (printed fuel n tail) ≤ suc digits + length tail
unfolding printed
length-printed digits zero n tail h = omega arith
length-printed zero (suc fuel) n tail h =
    let small : ltb n 10 ≡ true = ground (arith, h) in rw small (omega arith)
length-printed (suc digits) (suc fuel) n tail h = elim (Bool-cases (ltb n 10)) [
  | inl small ↦ rw small (omega arith)
  | inr large ↦
      let less : n / 10 < 10 ^ suc digits =
        (div-lt_iff_lt-mul (omega arith)).1 (omega (arith, h, pow-succ' 10 (suc digits))) in
      rw large (omega (arith, length-printed digits fuel (n / 10) ((48 + n % 10) ∷ tail) less))
]

strscpy-le : (n : ℕ) (s : Bytes) → length (strscpy n s) ≤ length s
unfolding strscpy
strscpy-le zero s = omega arith
strscpy-le (suc zero) s = omega arith
strscpy-le (suc (suc n)) [] = omega arith
strscpy-le (suc (suc n)) (x ∷ xs) = omega (arith, strscpy-le (suc n) xs)

length-llu : (n : ℕ) → n < 10 ^ 5 → length (llu n) ≤ 5
unfolding llu
length-llu n h = omega (arith, length-printed 4 20 n [] h)

length-cpu_key : (cpu : ℕ) → cpu < 10 ^ 2 → length (cpu_key cpu) ≤ 5
unfolding cpu_key
length-cpu_key cpu h =
    let cut = strscpy-le 8 (lit "cpu" ++ printed 10 cpu []) in
    let digits = length-printed 1 10 cpu [] h in
    omega (arith, cut, digits, length-append (lit "cpu") (printed 10 cpu []))

length-member_text :
    (key val : Bytes) → length (member (text key val)) ≡ length key + length val + 3
length-member_text key val =
    omega (arith, length-append (quoted key) (b':' ∷ val), length-append key (b'"' ∷ []))

length-running :
    (nr_running : ℕ → ℕ) (n cpu : ℕ)
    → cpu + n ≤ 100
    → ((c : ℕ) → nr_running c < 10 ^ 5)
    → (f : Field) → length (listed f (running_fields nr_running n cpu)) ≤ length (member f) + 14 * n
unfolding running_fields
length-running nr zero cpu h few f = omega arith
length-running nr (suc n) cpu h few f =
    let g = text (cpu_key cpu) (llu (nr cpu)) in
    let rest = length-running nr n (suc cpu) (omega arith) few g in
    let key = length-cpu_key cpu (omega arith) in
    let val = length-llu (nr cpu) (few cpu) in
    let own = length-member_text (cpu_key cpu) (llu (nr cpu)) in
    let whole = length-append (member f) (b',' ∷ listed g (running_fields nr n (suc cpu))) in
    omega (arith, rest, key, val, own, whole)

length-report :
    (now : Bytes) (n : ℕ) (nr : ℕ → ℕ)
    → length now ≤ 20
    → n ≤ 31
    → ((c : ℕ) → nr c < 10 ^ 5)
    → length (rendered now (running_report n nr)) < buf_size
unfolding running_report
length-report now n nr t h few =
    let kind = string (lit "type") (lit "nr_running") in
    let fields = length-running nr n 1 (omega arith) few kind in
    let stamped = length-member_text (lit "timestamp") now in
    let whole = length-append (member (stamp now)) (b',' ∷ listed kind (running_fields nr n 1)) in
    let closed =
      length-append (b'{' ∷ listed (stamp now) (kind ∷ running_fields nr n 1))
        (b'}' ∷ b'\n' ∷ []) in
    omega (arith, fields, stamped, whole, closed)

-- On at most 31 test CPUs with fewer than 100,000 tasks on each, the report of every runqueue is
-- sent at every time, as one JSON object with a field for each CPU in their order: it does not
-- overflow the record, which would stop the machine.
pub output_nr_running-rendered :
    (now : Bytes) (test_ncpus : ℕ) (nr_running : ℕ → ℕ)
    → length now ≤ 20
    → test_ncpus ≤ 31
    → ((cpu : ℕ) → nr_running cpu < 10 ^ 5)
    → output_nr_running now test_ncpus nr_running
      ≡ ok (rendered now (running_report test_ncpus nr_running))
unfolding output_nr_running
output_nr_running-rendered now n nr t h few =
    let fits : ltb (length (rendered now (running_report n nr))) buf_size ≡ true =
      ground (arith, length-report now n nr t h few) in
    rw fits at (send_record-rendered now (running_report n nr))
