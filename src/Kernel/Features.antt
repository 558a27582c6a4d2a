-- ===== src/Kernel/Features.antt =====
-- The scheduler features of kmod/kernel.c: the word of flags behind `sysctl_sched_features`.
use kstep.Prelude.{
  ℕ, zero, suc, ◌+◌, ◌<◌, ◌≡◌, refl, sym, ap, ◌∙◌, Bool, true, false, not, ◌||◌, List, [], ◌∷◌,
  ◌++◌, length, get_or, set, length-set, Option, none, some, leb, ◌==◌, if◌then◌else◌, arith,
  Bool-cases, ◌⊎◌, inl, inr, Outcome, ok, panic, bad_format, ◌>>=◌,
}
use kstep.Text.{Bytes, lit, equal, strstarts}
use kstep.Kernel.{max_length}

-- The flags by their bits, the lowest first.
abbrev pub Word : Type 0
Word = List Bool

-- `kstep_sched_feat_index` among the kernel's names from the bit `i` on.
unfoldable pub feat_index : Bytes → ℕ → List Bytes → Option ℕ
feat_index name i [] = none
feat_index name i (n ∷ names) = if equal n name then some i else feat_index name (suc i) names

same_bit : Bool → Bool → Bool
same_bit true enabled = enabled
same_bit false enabled = not enabled

feat_bit : Option ℕ → Bool → Word → Word
feat_bit none enabled w = w
feat_bit (some i) enabled w = if same_bit (get_or w i false) enabled then w else set w i enabled

unfoldable pub feat_set : List Bytes → Bytes → Bool → Word → Word
unfolding feat_bit same_bit
feat_set names name enabled w = feat_bit (feat_index name 0 names) enabled w

abbrev pub skip3 : Bytes → Bytes
skip3 (a ∷ b ∷ c ∷ rest) = rest
skip3 other = []

-- `text` is what vsnprintf formats.
unfoldable pub feat_write : List Bytes → Bytes → Word → Outcome Word
unfolding feat_set
feat_write names text w =
    if length text == 0 || leb max_length (length text)
    then panic bad_format
    else if strstarts text (lit "NO_")
    then ok (feat_set names (skip3 text) false w)
    else ok (feat_set names text true w)

unfoldable pub feat_enable : List Bytes → Bytes → Word → Outcome Word
unfolding feat_write
feat_enable names name w = feat_write names name w

unfoldable pub feat_disable : List Bytes → Bytes → Word → Outcome Word
unfolding feat_write
feat_disable names name w = feat_write names (lit "NO_" ++ name) w

set-get_or : (w : Word) (i : ℕ) → i < length w → set w i (get_or w i false) ≡ w
set-get_or [] i h = refl
set-get_or (b ∷ w) zero h = refl
set-get_or (b ∷ w) (suc i) h = ap (λ t. b ∷ t) (set-get_or w i (omega arith))

set-set : (w : Word) (i : ℕ) (a b : Bool) → set (set w i a) i b ≡ set w i b
set-set [] i a b = refl
set-set (x ∷ w) zero a b = refl
set-set (x ∷ w) (suc i) a b = ap (λ t. x ∷ t) (set-set w i a b)

same_bit-eq : (a b : Bool) → same_bit a b ≡ true → a ≡ b
unfolding same_bit
same_bit-eq true b h = sym h
same_bit-eq false true h = cc
same_bit-eq false false h = refl

module _ (names : List Bytes) (name : Bytes) (w : Word) (i : ℕ) where
  feat_set-set :
      (enabled : Bool)
      → feat_index name 0 names ≡ some i
      → i < length w
      → feat_set names name enabled w ≡ set w i enabled
  unfolding feat_set
  feat_set-set enabled known h = rw known (split (Bool-cases (same_bit (get_or w i false) enabled)))
    where
      split :
          (same_bit (get_or w i false) enabled ≡ true)
            ⊎ (same_bit (get_or w i false) enabled ≡ false)
          → (if same_bit (get_or w i false) enabled then w else set w i enabled) ≡ set w i enabled
      split (inl x) = rw x (sym (set-get_or w i h) ∙ ap (set w i) (same_bit-eq _ _ x))
      split (inr x) = rw x

  -- The name of a feature, which does not begin with "NO_", with the room that "NO_" takes.
  pub record IsName : Type 0 where
    pub known : feat_index name 0 names ≡ some i
    pub in_word : i < length w
    pub some_name : 0 < length name
    pub fits : length name + 3 < max_length
    pub plain : strstarts name (lit "NO_") ≡ false

  pub enable-set : IsName → feat_enable names name w ≡ ok (set w i true)
  unfolding feat_enable feat_write
  enable-set n =
      let short : (length name == 0 || leb max_length (length name)) ≡ false =
        ground (arith, n.some_name, n.fits) in
      rw (short, n.plain) (ap ok (feat_set-set true n.known n.in_word))

  pub disable-set : IsName → feat_disable names name w ≡ ok (set w i false)
  unfolding feat_disable feat_write strstarts
  disable-set n =
      let short : (suc (suc (suc (length name))) == 0
            || leb max_length (suc (suc (suc (length name)))))
          ≡ false =
        ground (arith, n.fits) in
      rw short (ap ok (feat_set-set false n.known n.in_word))

module _ (names : List Bytes) (name : Bytes) (w : Word) (i : ℕ) where
  -- Enabling a feature sets its bit and no other, and disabling it after that clears the bit again,
  -- so a feature that was off is off as before, with the whole word as it was.
  pub feat_toggle :
      IsName names name w i
      → (feat_enable names name w ≡ ok (set w i true))
        × ((feat_enable names name w >>= feat_disable names name) ≡ ok (set w i false))
        × (get_or w i false ≡ false → (feat_enable names name w >>= feat_disable names name) ≡ ok w)
  feat_toggle n =
      let on = enable-set names name w i n in
      let still : IsName names name (set w i true) i = record {
        known = n.known;
        in_word = omega (arith, n.in_word, length-set w i true);
        some_name = n.some_name;
        fits = n.fits;
        plain = n.plain;
      } in
      let off : (feat_enable names name w >>= feat_disable names name) ≡ ok (set w i false) =
        rw on (disable-set names name (set w i true) i still ∙ ap ok (set-set w i true false)) in
      (on, off, λ was. off ∙ ap ok (ap (set w i) (sym was) ∙ set-get_or w i n.in_word))
