-- ===== src/Text/Tests.antt =====
-- Cutting at blanks.
use kstep.Prelude.{[], ◌∷◌, ◌≡◌, refl, ◌==◌}
use kstep.Text.{lit, tokens}

tokens-lit : tokens (λ c. c == b'|') (lit "1|2||") ≡ lit "1" ∷ lit "2" ∷ [] ∷ [] ∷ []
unfolding tokens
tokens-lit = refl
