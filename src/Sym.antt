-- ===== src/Sym.antt =====
-- The symbols of the module and the choice of the driver: kmod/sym.c.
pub mod Drivers
mod Tests
use kstep.Prelude.{
  ℕ, zero, suc, ◌+◌, Bool, true, false, not, ◌&&◌, ◌||◌, List, [], ◌∷◌, ◌++◌, length, Option, none,
  some, leb, ◌==◌, if◌then◌else◌, Outcome, ok, panic, bad_format, no_symbol, driver_twice,
  no_driver, ◌>>=◌,
}
use kstep.Text.{Bytes, lit, equal, strstarts, cut}

-- MAX_SYM_NAME_LENGTH
abbrev pub max_sym_name : ℕ
max_sym_name = 64

-- An entry of the module's symbol table.
pub record Symbol : Type 0 where
  pub name : Bytes
  pub addr : ℕ

-- What is asked for: `kallsyms_lookup_name`, and the name in the `struct kstep_driver` at an address.
pub record Kallsyms : Type 0 where
  pub lookup : Bytes → Option ℕ
  pub driver_name : ℕ → Bytes

-- `name + 5`
abbrev pub skip5 : Bytes → Bytes
skip5 (a ∷ b ∷ c ∷ d ∷ e ∷ rest) = rest
skip5 other = []

-- What the loop has written through the symbols' addresses, the oldest first, and `driver`.
pub record Found : Type 0 where
  pub written : List (ℕ × ℕ)
  pub driver : Option ℕ

module _ (k : Kallsyms) where
  resolved : ℕ → Option ℕ → Found → Outcome Found
  resolved addr none f = panic no_symbol
  resolved addr (some p) f = ok (record f { written = f.written ++ ((addr, p) ∷ []) })

  -- A name is cut at its first dot.
  unfoldable pub init_ksym : Bytes → ℕ → Found → Outcome Found
  unfolding resolved
  init_ksym name addr f =
      if length name == 0 || leb max_sym_name (length name)
      then panic bad_format
      else resolved addr (k.lookup (cut (λ c. c == b'.') name).0) f

  take_driver : ℕ → Option ℕ → Found → Outcome Found
  take_driver addr (some d) f = panic driver_twice
  take_driver addr none f = ok (record f { driver = some addr })

  unfoldable pub see_symbol : Bytes → Symbol → Found → Outcome Found
  unfolding init_ksym take_driver
  see_symbol driver_name s f =
      if strstarts s.name (lit "KSYM_")
      then init_ksym (skip5 s.name) s.addr f
      else if equal s.name (lit "DRIVER") && equal (k.driver_name s.addr) driver_name
      then take_driver s.addr f.driver f
      else ok f

  unfoldable pub see_symbols : Bytes → List Symbol → Found → Outcome Found
  see_symbols driver_name [] f = ok f
  see_symbols driver_name (s ∷ symtab) f =
      see_symbol driver_name s f >>= λ f'. see_symbols driver_name symtab f'

  chosen : Found → Option ℕ → Outcome (ℕ × List (ℕ × ℕ))
  chosen f none = panic no_driver
  chosen f (some d) = ok (d, f.written)

  unfoldable pub sym_init : Bytes → List Symbol → Outcome (ℕ × List (ℕ × ℕ))
  unfolding see_symbols chosen
  sym_init driver_name symtab =
      see_symbols driver_name symtab (record { written = []; driver = none }) >>= λ f.
      chosen f f.driver
