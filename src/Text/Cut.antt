-- ===== src/Text/Cut.antt =====
-- What a cut string is made of.
use kstep.Prelude.{ℕ, Bool, List, [], ◌∷◌, Option, none, some, ◌≡◌, refl, arith}
use kstep.Text.{Bytes, cut, strsep, tokens}

-- The tokens of a string, or of NULL.
abbrev pub tokens_of : (ℕ → Bool) → Option Bytes → List Bytes
tokens_of stop none = []
tokens_of stop (some s) = tokens stop s

-- The tokens of the loop are those of repeated calls of `strsep`: the first is what one call cuts
-- off, and the others are the tokens of what it leaves.
pub tokens-strsep :
    (stop : ℕ → Bool) (s : Bytes)
    → tokens stop s ≡ (strsep stop s).0 ∷ tokens_of stop (strsep stop s).1
unfolding tokens strsep cut
tokens-strsep stop [] = refl
tokens-strsep stop (x ∷ xs) = ground (arith, tokens-strsep stop xs)
