-- ===== src/Prelude/Calls.antt =====
-- What a call of the kernel module comes to: a value, or one of the ends that stop the machine.
use mathlib.Core.Path.{◌≡◌, refl}

-- The messages of `panic`, and `out_of_bounds` for a write outside a C array.
pub data Fault : Type 0 where
  queue_full no_record no_buffer : Fault
  input_overflow record_too_long host_not_reading : Fault
  json_overflow json_format : Fault
  jiffies_moved : Fault
  unknown_action : Fault
  scaled_differently unknown_level too_many_cpus cap_unsupported : Fault
  out_of_bounds : Fault
  not_settled not_ended : Fault
  vq_failed not_reclaimed : Fault
  cannot_trace : Fault
  no_symbol driver_twice no_driver : Fault
  fd_taken not_pinned no_helper not_affine : Fault
  root_cgroup bad_format no_path no_write_access rmdir_failed : Fault

pub data Outcome {ℓ} (A : Type ℓ) : Type ℓ where
  ok : A → Outcome A
  panic : Fault → Outcome A

infixl 5 ◌>>=◌
abbrev pub ◌>>=◌ {ℓ κ} : {A : Type ℓ} {B : Type κ} → Outcome A → (A → Outcome B) → Outcome B
panic x >>= then_do = panic x
ok v >>= then_do = then_do v

module _ {ℓ κ} {A : Type ℓ} {B : Type κ} where
  -- A chain that came to a value: its first call did, and so did what followed.
  pub >>=-eq-ok :
      (call : Outcome A) (next : A → Outcome B) {v : B}
      → (call >>= next) ≡ ok v
      → (u : A) × (call ≡ ok u) × (next u ≡ ok v)
  >>=-eq-ok (panic x) next e = cc
  >>=-eq-ok (ok u) next e = (u, refl, e)

pub panic-not_ok {ℓ} : {A : Type ℓ} {x : Fault} {b : A} → panic x ≡ ok b → ⊥
panic-not_ok h = cc

pub ok-inj {ℓ} : {A : Type ℓ} {a b : A} → ok a ≡ ok b → a ≡ b
ok-inj h = cc
