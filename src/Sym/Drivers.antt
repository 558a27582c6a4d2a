-- ===== src/Sym/Drivers.antt =====
-- Which driver is chosen, and which symbols are resolved.
use kstep.Prelude.{
  ℕ, ◌≡◌, refl, sym, ap, ◌∙◌, Bool, true, false, not, ◌&&◌, ◌||◌, List, [], ◌∷◌, ◌++◌, length,
  Option, none, some, leb, ◌==◌, if◌then◌else◌, Bool-cases, inl, inr, ok, >>=-eq-ok, panic-not_ok,
  ok-inj,
}
use mathlib.Core.List.{append_assoc, append-nil}
use kstep.Text.{Bytes, lit, equal, strstarts, cut}
use kstep.Sym.{
  max_sym_name, Symbol, Kallsyms, skip5, Found, resolved, init_ksym, take_driver, see_symbol,
  see_symbols, chosen, sym_init,
}

module _ (k : Kallsyms) where
  abbrev is_ksym : Symbol → Bool
  is_ksym s = strstarts s.name (lit "KSYM_")

  abbrev is_driver : Bytes → Symbol → Bool
  is_driver name s =
      not (is_ksym s) && (equal s.name (lit "DRIVER") && equal (k.driver_name s.addr) name)

  -- The drivers of that name, by their addresses.
  unfoldable pub drivers : Bytes → List Symbol → List ℕ
  drivers name [] = []
  drivers name (s ∷ symtab) =
      if is_driver name s then s.addr ∷ drivers name symtab else drivers name symtab

  -- Each import with the symbol of the kernel that its name without "KSYM_" and without what follows
  -- a dot stands for.
  pub data Resolved : List Symbol → List (ℕ × ℕ) → Type 0 where
    end : Resolved [] []
    other :
        (s : Symbol) {symtab : List Symbol} {ws : List (ℕ × ℕ)}
        → strstarts s.name (lit "KSYM_") ≡ false
        → Resolved symtab ws
        → Resolved (s ∷ symtab) ws
    import :
        (s : Symbol) (p : ℕ) {symtab : List Symbol} {ws : List (ℕ × ℕ)}
        → strstarts s.name (lit "KSYM_") ≡ true
        → k.lookup (cut (λ c. c == b'.') (skip5 s.name)).0 ≡ some p
        → Resolved symtab ws
        → Resolved (s ∷ symtab) ((s.addr, p) ∷ ws)

  abbrev the_driver : Option ℕ → List ℕ
  the_driver none = []
  the_driver (some d) = d ∷ []

  resolved-some :
      (addr : ℕ) (o : Option ℕ) (f : Found) {f' : Found}
      → resolved k addr o f ≡ ok f'
      → (p : ℕ) × (o ≡ some p)
        × (f'.written ≡ f.written ++ ((addr, p) ∷ []))
        × (f'.driver ≡ f.driver)
  unfolding resolved
  resolved-some addr none f e = absurd (panic-not_ok e)
  resolved-some addr (some p) f e =
      let same = ok-inj e in
      (p, refl, ap (λ (x : Found). x.written) (sym same), ap (λ (x : Found). x.driver) (sym same))

  init_ksym-some :
      (name : Bytes) (addr : ℕ) (f : Found) {f' : Found}
      → init_ksym k name addr f ≡ ok f'
      → (p : ℕ) × (k.lookup (cut (λ c. c == b'.') name).0 ≡ some p)
        × (f'.written ≡ f.written ++ ((addr, p) ∷ []))
        × (f'.driver ≡ f.driver)
  unfolding init_ksym
  init_ksym-some name addr f e =
      elim (Bool-cases (length name == 0 || leb max_sym_name (length name))) [
        | inl x ↦ absurd (panic-not_ok (rw x at e))
        | inr x ↦ resolved-some addr (k.lookup (cut (λ c. c == b'.') name).0) f (rw x at e)
      ]

  take_driver-found :
      (addr : ℕ) (d : Option ℕ) (f : Found) {f' : Found}
      → f.driver ≡ d
      → take_driver k addr d f ≡ ok f'
      → (the_driver f'.driver ≡ the_driver f.driver ++ (addr ∷ [])) × (f'.written ≡ f.written)
  unfolding take_driver
  take_driver-found addr (some d) f h e = absurd (panic-not_ok e)
  take_driver-found addr none f h e =
      let same = ok-inj e in (rw (h, ← same) refl, ap (λ (x : Found). x.written) (sym same))

  -- What a stretch of the table comes to.
  record Passed (name : Bytes) (symtab : List Symbol) (f f' : Found) : Type 0 where
    driver : the_driver f'.driver ≡ the_driver f.driver ++ drivers name symtab
    ws : List (ℕ × ℕ)
    all : Resolved symtab ws
    written : f'.written ≡ f.written ++ ws

  see_symbols-Passed :
      (name : Bytes) (symtab : List Symbol) (f : Found) {f' : Found}
      → see_symbols k name symtab f ≡ ok f'
      → Passed name symtab f f'
  unfolding see_symbols see_symbol drivers
  see_symbols-Passed name [] f e =
      let same = ok-inj e in
      record {
        driver = rw (← same) (sym (append-nil (the_driver f.driver)));
        ws = [];
        all = end;
        written = rw (← same) (sym (append-nil f.written));
      }
  see_symbols-Passed name (s ∷ symtab) f e =
      let (u, ea, eb) = >>=-eq-ok (see_symbol k name s f) (see_symbols k name symtab) e in
      let rest = see_symbols-Passed name symtab u eb in
      elim (Bool-cases (strstarts s.name (lit "KSYM_"))) [
        | inl x ↦
            let (p, known, wrote, kept) = init_ksym-some (skip5 s.name) s.addr f (rw x at ea) in
            record {
              driver = rw x (rest.driver ∙ ap (λ d. the_driver d ++ drivers name symtab) kept);
              ws = (s.addr, p) ∷ rest.ws;
              all = import s p x known rest.all;
              written =
                  rest.written
                  ∙ ap (λ w. w ++ rest.ws) wrote
                  ∙ append_assoc f.written ((s.addr, p) ∷ []) rest.ws;
            }
        | inr x ↦
            elim (Bool-cases (equal s.name (lit "DRIVER") && equal (k.driver_name s.addr) name)) [
              | inl y ↦
                  let (d, wrote) = take_driver-found s.addr f.driver f refl (rw (x, y) at ea) in
                  record {
                    driver =
                        rw (x, y)
                          (rest.driver
                            ∙ ap (λ l. l ++ drivers name symtab) d
                            ∙ append_assoc (the_driver f.driver) (s.addr ∷ [])
                                (drivers name symtab));
                    ws = rest.ws;
                    all = other s x rest.all;
                    written = rest.written ∙ ap (λ w. w ++ rest.ws) wrote;
                  }
              | inr y ↦
                  let same : f ≡ u = ok-inj (rw (x, y) at ea) in
                  record {
                    driver = rw (x, y, same) rest.driver;
                    ws = rest.ws;
                    all = other s x rest.all;
                    written = rw same rest.written;
                  }
            ]
      ]

  chosen-some :
      (f : Found) (o : Option ℕ) {d : ℕ} {ws : List (ℕ × ℕ)}
      → chosen k f o ≡ ok (d, ws)
      → (o ≡ some d) × (f.written ≡ ws)
  unfolding chosen
  chosen-some f none e = absurd (panic-not_ok e)
  chosen-some f (some a) {d} {ws} e =
      let same = ok-inj e in
      let is_d : a ≡ d = ap (λ (p : ℕ × List (ℕ × ℕ)). p.0) same in
      (ap some is_d, ap (λ (p : ℕ × List (ℕ × ℕ)). p.1) same)

  -- If the look at the table does not panic, the driver is the only one of the module that has the
  -- name asked for, and every import was written with the kernel's symbol of its name, without
  -- "KSYM_" and without what follows a dot; none was left out.
  pub sym_init-drivers :
      (name : Bytes) (symtab : List Symbol) {d : ℕ} {ws : List (ℕ × ℕ)}
      → sym_init k name symtab ≡ ok (d, ws)
      → (drivers name symtab ≡ d ∷ []) × Resolved symtab ws
  unfolding sym_init
  sym_init-drivers name symtab {d} {ws} e =
      let (f, ea, eb) = >>=-eq-ok (see_symbols k name symtab _) (λ f. chosen k f f.driver) e in
      let seen = see_symbols-Passed name symtab _ ea in
      let (is_some, wrote) = chosen-some f f.driver eb in
      let same : seen.ws ≡ ws = sym seen.written ∙ wrote in
      (sym seen.driver ∙ ap the_driver is_some, rw (← same) seen.all)
