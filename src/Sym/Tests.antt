-- ===== src/Sym/Tests.antt =====
-- A module with one import, two drivers, and a kernel whose symbols stand at the length of their
-- names.
use kstep.Prelude.{List, [], ◌∷◌, length, some, ok, ◌≡◌, refl, ◌==◌, if◌then◌else◌}
use kstep.Text.{lit, equal, strstarts, cut}
use kstep.Sym.{Symbol, Kallsyms, init_ksym, see_symbol, sym_init}
use kstep.Sym.Drivers.{drivers, Resolved, sym_init-drivers}

abbrev names : Kallsyms
names = record {
  lookup = λ s. some (length s);
  driver_name = λ a. if a == 8 then lit "default" else lit "freeze";
}

abbrev symtab : List Symbol
symtab =
    record { name = lit "KSYM_rcu.1"; addr = 4 }
    ∷ record { name = lit "DRIVER"; addr = 8 }
    ∷ record { name = lit "DRIVER"; addr = 9 }
    ∷ []

loaded : sym_init names (lit "default") symtab ≡ ok (8, (4, 3) ∷ [])
unfolding sym_init see_symbol init_ksym equal strstarts cut
loaded = refl

sym_init-drivers_example :
    (drivers names (lit "default") symtab ≡ 8 ∷ []) × Resolved names symtab ((4, 3) ∷ [])
sym_init-drivers_example = sym_init-drivers names (lit "default") symtab loaded
