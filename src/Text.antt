-- ===== src/Text.antt =====
-- C strings as lists of bytes, without the closing NUL: the string functions that the command
-- parser and the topology spec use. A NULL pointer is `none`.
pub mod Cut
mod Tests
use Prim.Native.Char.{code}
use Prim.Native.String.{String}
use kstep.Prelude.{
  ℕ, zero, suc, ◌+◌, ◌-◌, ◌/◌, ◌%◌, ltb, Bool, true, false, not, ◌&&◌, ◌||◌, List, [], ◌∷◌, ◌++◌,
  Option, none, some, leb, ◌==◌, if◌then◌else◌, length,
}

abbrev pub Bytes : Type 0
Bytes = List ℕ

-- A literal of the source: its bytes.
abbrev pub lit : String → Bytes
lit String.[] = []
lit (String.◌∷◌ c s) = code c ∷ lit s

-- `!strcmp(a, b)`
unfoldable pub equal : Bytes → Bytes → Bool
equal [] [] = true
equal (x ∷ xs) (y ∷ ys) = x == y && equal xs ys
equal _ _ = false

-- `strstarts(s, prefix)`
unfoldable pub strstarts : Bytes → Bytes → Bool
strstarts s [] = true
strstarts [] (y ∷ ys) = false
strstarts (x ∷ xs) (y ∷ ys) = x == y && strstarts xs ys

-- `strstr(s, part) != NULL`
unfoldable pub contains_part : Bytes → Bytes → Bool
contains_part [] part = strstarts [] part
contains_part (x ∷ xs) part = strstarts (x ∷ xs) part || contains_part xs part

-- The bytes before the first one that `stop` holds of, and what stands behind that byte: `none`
-- where there is no such byte.
unfoldable pub cut : (ℕ → Bool) → Bytes → Bytes × Option Bytes
cut stop [] = ([], none)
cut stop (x ∷ xs) =
    let (token, rest) = cut stop xs in if stop x then ([], some xs) else (x ∷ token, rest)

-- `strsep(&s, delims)` at a string: the token, and the new `s`.
unfoldable pub strsep : (ℕ → Bool) → Bytes → Bytes × Option Bytes
strsep = cut

cut_parts : Bytes × Option Bytes → Option (Bytes × Bytes)
cut_parts (a, none) = none
cut_parts (a, some b) = some (a, b)

-- `val = strchr(s, c)` followed by `*val++ = '\0'`: what stands before and behind the byte.
unfoldable pub split_at : ℕ → Bytes → Option (Bytes × Bytes)
unfolding cut_parts
split_at c s = cut_parts (cut (λ x. x == c) s)

-- The tokens of `while ((token = strsep(&s, delims)) != NULL)`: at least one.
unfoldable pub cons_token : ℕ → List Bytes → List Bytes
cons_token x [] = (x ∷ []) ∷ []
cons_token x (t ∷ ts) = (x ∷ t) ∷ ts

unfoldable pub tokens : (ℕ → Bool) → Bytes → List Bytes
unfolding cons_token
tokens stop [] = [] ∷ []
tokens stop (x ∷ xs) = let rest = tokens stop xs in if stop x then [] ∷ rest else cons_token x rest

-- `strscpy(buf, s, size)`
unfoldable pub strscpy : ℕ → Bytes → Bytes
strscpy zero s = []
strscpy (suc zero) s = []
strscpy (suc (suc n)) [] = []
strscpy (suc (suc n)) (x ∷ xs) = x ∷ strscpy (suc n) xs

-- `isspace`, by the kernel's table
abbrev pub is_space : ℕ → Bool
is_space c = c == b' ' || leb 9 c && leb c 13 || c == 0xa0

unfoldable pub skip_spaces : Bytes → Bytes
skip_spaces [] = []
skip_spaces (x ∷ xs) = if is_space x then skip_spaces xs else x ∷ xs

-- `x` in front of a string whose trailing spaces are dropped.
keep_front : ℕ → Bytes → Bytes
keep_front x [] = if is_space x then [] else x ∷ []
keep_front x (y ∷ ys) = x ∷ y ∷ ys

unfoldable pub drop_trailing : Bytes → Bytes
unfolding keep_front
drop_trailing [] = []
drop_trailing (x ∷ xs) = keep_front x (drop_trailing xs)

-- `strim`
unfoldable pub strim : Bytes → Bytes
strim s = skip_spaces (drop_trailing s)

-- `%d`, `%u` and `%llu` of a number of at most that many digits, in front of `tail`.
unfoldable pub printed : ℕ → ℕ → Bytes → Bytes
printed zero n tail = tail
printed (suc digits) n tail =
    let more = printed digits (n / 10) ((48 + n % 10) ∷ tail) in
    if ltb n 10 then (48 + n) ∷ tail else more

abbrev pub blank : ℕ → Bool
blank c = c == b' ' || c == b'\t'
