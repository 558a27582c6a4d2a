-- ===== src/Trace/Hooks.antt =====
-- A hook that is armed is called at its own location, and arming disturbs no other.
use kstep.Prelude.{
  panic-not_ok, ok-inj, ℕ, ◌<◌, true, false, List, [], ◌∷◌, ◌++◌, length, Option, none, some,
  Bool-cases, inl, inr, ◌⊎◌, ◌≡◌, refl, ap, ◌∙◌, arith, ◌==◌, if◌then◌else◌, ok,
}
use kstep.Text.{Bytes, lit, equal}
use kstep.Event.{Event, event_add, emit}
use kstep.Trace.{
  Hook, max_hooks, Ftrace, Handlers, Traced, is_hooked, dispatch, new_hook, hook, on_task_migrate,
}

-- What is called at `ip` when `new` stands behind `old`.
abbrev pub or_else : Option ℕ → Option ℕ → Option ℕ
or_else none new = new
or_else (some func) new = some func

dispatch-append :
    (hs : List Hook) (h : Hook) (ip : ℕ)
    → dispatch (hs ++ (h ∷ [])) ip
      ≡ or_else (dispatch hs ip) (if h.ip == ip then some h.func else none)
unfolding dispatch
dispatch-append [] h ip = refl
dispatch-append (g ∷ hs) h ip = elim (Bool-cases (g.ip == ip)) [
  | inl e ↦ rw e
  | inr e ↦ rw e (dispatch-append hs h ip)
]

hooked-append :
    (name other : Bytes) (hs : List Hook) (func ip : ℕ)
    → is_hooked other hs ≡ true
    → is_hooked other (hs ++ (record { name = name; func = func; ip = ip } ∷ [])) ≡ true
unfolding is_hooked
hooked-append name other [] func ip h = cc
hooked-append name other (g ∷ hs) func ip h = ground (arith, hooked-append name other hs func ip)

equal_self : (s : Bytes) → equal s s ≡ true
unfolding equal
equal_self [] = refl
equal_self (c ∷ s) = ground (arith, equal_self s)

hooked-last :
    (name : Bytes) (hs : List Hook) (func ip : ℕ)
    → is_hooked name (hs ++ (record { name = name; func = func; ip = ip } ∷ [])) ≡ true
unfolding is_hooked
hooked-last name [] func ip = rw (equal_self name)
hooked-last name (g ∷ hs) func ip = ground (arith, hooked-last name hs func ip)

-- How arming changes the table, if it does not stop the machine.
pub data Arms (name : Bytes) (func : ℕ) (t t' : Traced) : Type 0 where
  already : is_hooked name t.hooks ≡ true → t ≡ t' → Arms name func t t'
  full : length t.hooks ≡ max_hooks → t ≡ t' → Arms name func t t'
  armed :
      (ip : ℕ)
      → t'.hooks ≡ t.hooks ++ (record { name = name; func = func; ip = ip } ∷ [])
      → t'.filters ≡ t.filters ++ (ip ∷ [])
      → Arms name func t t'

module _ (f : Ftrace) where
  new-Arms :
      (name : Bytes) (func : ℕ) (o : Option ℕ) (t : Traced) {t' : Traced}
      → new_hook f name func o t ≡ ok t'
      → Arms name func t t'
  unfolding new_hook
  new-Arms name func none t e = absurd (panic-not_ok e)
  new-Arms name func (some ip) t {t'} e = elim (Bool-cases (f.set_filter ip)) [
    | inl s ↦ armed ip (ground (arith, s, e)) (ground (arith, s, e))
    | inr s ↦ absurd (panic-not_ok (rw s at e))
  ]

  hook-Arms :
      (name : Bytes) (func : ℕ) (t : Traced) {t' : Traced}
      → hook f name func t ≡ ok t'
      → Arms name func t t'
  unfolding hook
  hook-Arms name func t {t'} e = elim (Bool-cases (is_hooked name t.hooks)) [
    | inl h ↦ already h (ground (arith, h, e))
    | inr h ↦ elim (Bool-cases (length t.hooks == max_hooks)) [
      | inl l ↦ full (ground (arith, l)) (ground (arith, h, l, e))
      | inr l ↦ new-Arms name func (f.location name) t (rw (h, l) at e)
    ]
  ]

  -- While the table is not full, arming leaves the function hooked, and what was called at any
  -- location before is still what is called there.
  pub hook-dispatch :
      (name : Bytes) (func ip g : ℕ) (t : Traced) {t' : Traced}
      → length t.hooks < max_hooks
      → hook f name func t ≡ ok t'
      → dispatch t.hooks ip ≡ some g
      → (is_hooked name t'.hooks ≡ true) × (dispatch t'.hooks ip ≡ some g)
  hook-dispatch name func ip g t room e d = kept (hook-Arms name func t e)
    where
      kept :
          {t' : Traced}
          → Arms name func t t'
          → (is_hooked name t'.hooks ≡ true) × (dispatch t'.hooks ip ≡ some g)
      kept (already h same) = (rw (← same) h, rw (← same) d)
      kept (full l same) = absurd (omega (arith, l, room))
      kept (armed i hs fs) = (
        rw hs (hooked-last name t.hooks func i),
        rw hs (
            dispatch-append t.hooks (record { name = name; func = func; ip = i }) ip
            ∙ ap (λ o. or_else o (if i == ip then some func else none)) d),
      )

  stale : (ev : Event) (fn : ℕ) → (event_add ev fn).0 ≡ false → (event_add ev fn).2 ≡ ev
  unfolding event_add
  stale ev fn e = ground arith

  hook-hooked :
      (name : Bytes) (func : ℕ) (t : Traced) {t' : Traced}
      → length t.hooks < max_hooks
      → hook f name func t ≡ ok t'
      → is_hooked name t'.hooks ≡ true
  hook-hooked name func t room e = hooked (hook-Arms name func t e)
    where
      hooked : {t' : Traced} → Arms name func t t' → is_hooked name t'.hooks ≡ true
      hooked (already h same) = rw (← same) h
      hooked (full l same) = absurd (omega (arith, l, room))
      hooked (armed i hs fs) = rw hs (hooked-last name t.hooks func i)

  -- Whoever watches migrations, `set_task_cpu` is hooked.
  abbrev pub IsArmed : Traced → Type 0
  IsArmed t = (emit t.task_migrate ≡ []) ⊎ (is_hooked (lit "set_task_cpu") t.hooks ≡ true)

  -- Registering for migrations keeps that so, whether the callback is new or not, while the table of
  -- hooks is not full.
  pub migrate-IsArmed :
      (on : Handlers) (fn : ℕ) (t : Traced) {t' : Traced}
      → length t.hooks < max_hooks
      → IsArmed t
      → on_task_migrate f on fn t ≡ ok t'
      → IsArmed t'
  unfolding on_task_migrate
  migrate-IsArmed on fn t {t'} room a e = elim (Bool-cases (event_add t.task_migrate fn).0) [
    | inl fresh ↦ inr (
        hook-hooked (lit "set_task_cpu") on.on_set_task_cpu
          (record t { task_migrate = (event_add t.task_migrate fn).2 }) room (rw fresh at e))
    | inr old ↦
        let same : record t { task_migrate = (event_add t.task_migrate fn).2 } ≡ t' =
          ok-inj (rw old at e) in
        rw (← same, stale t.task_migrate fn old) a
  ]
