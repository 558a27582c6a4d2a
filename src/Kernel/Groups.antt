-- ===== src/Kernel/Groups.antt =====
-- The start of the cgroups and the end of one: `kstep_cgroup_init` and `kstep_cgroup_destroy` of
-- kmod/kernel.c.
use kstep.Prelude.{
  ℕ, ◌<◌, false, ◌||◌, [], ◌++◌, length, leb, ◌==◌, if◌then◌else◌, ◌≡◌, refl, ◌∙◌, arith,
  Bool-cases, inl, inr, Option, none, some, Outcome, ok, panic, bad_format, no_path, root_cgroup,
  ◌>>=◌, >>=-eq-ok, panic-not_ok, ok-inj,
}
use kstep.Text.{Bytes, lit}
use kstep.Cli.{is_zero}
use kstep.Kernel.{max_length, cgroup_root, scnprintf, Files, cgroup_write, remove, cgroup_exists}
use kstep.Kernel.Paths.{Directories, remove-eq-ok, cgroup_exists-cut}

-- What else is called: `rcu_sync_enter` on the thread-group semaphore, and on that of the cpusets
-- where the kernel has one; a cgroup's reference, with its task group if it has the controller; and
-- the end of a task group.
pub record Groups (K : Type 0) : Type 0 where
  pub enter_threadgroup : K → K
  pub cpuset_rwsem : Option (K → K)
  pub cgroup_get : Bytes → K → Option (Option ℕ)
  pub unregister_fair_sched_group : ℕ → K → K
  pub cgroup_put : Bytes → K → K

module _ {K : Type 0} (f : Files K) (g : Groups K) where
  abbrev pub maybe : Option (K → K) → K → K
  maybe none κ = κ
  maybe (some enter) κ = enter κ

  unfoldable pub cgroup_init : K → Outcome K
  cgroup_init κ = cgroup_write f [] (lit "cgroup.subtree_control") (lit "+cpu +cpuset") κ >>= λ r.
      ok (maybe g.cpuset_rwsem (g.enter_threadgroup r.1))

  abbrev pub unregister : Option ℕ → K → K
  unregister none κ = κ
  unregister (some tg) κ = g.unregister_fair_sched_group tg κ

  destroy_found : Bytes → Bytes → Option (Option ℕ) → K → Outcome K
  destroy_found name path none κ = panic no_path
  destroy_found name path (some tg) κ =
      remove f path κ >>= λ κ'. ok (g.cgroup_put name (unregister tg κ'))

  unfoldable pub cgroup_destroy : Bytes → K → Outcome K
  unfolding destroy_found
  cgroup_destroy name κ =
      let path = scnprintf (cgroup_root ++ name) in
      if length name == 0
      then panic root_cgroup
      else if length path == 0 || leb max_length (length path)
      then panic bad_format
      else destroy_found name path (g.cgroup_get name κ) κ

  -- The end of a task group and of a reference leave the directories alone.
  pub record KeepsPaths : Type 0 where
    pub unregister :
        (tg : ℕ) (d : Bytes) (κ : K)
        → f.kern_path d (g.unregister_fair_sched_group tg κ) ≡ f.kern_path d κ
    pub put : (name d : Bytes) (κ : K) → f.kern_path d (g.cgroup_put name κ) ≡ f.kern_path d κ

  unregister-path :
      (k : KeepsPaths) (tg : Option ℕ) (d : Bytes) (κ : K)
      → f.kern_path d (unregister tg κ) ≡ f.kern_path d κ
  unregister-path k none d κ = refl
  unregister-path k (some tg) d κ = k.unregister tg d κ

  destroy_found-gone :
      (name path : Bytes) (found : Option (Option ℕ)) (κ : K) {κ' : K}
      → Directories f
      → KeepsPaths
      → destroy_found name path found κ ≡ ok κ'
      → is_zero (f.kern_path path κ') ≡ false
  unfolding destroy_found
  destroy_found-gone name path none κ d k e = absurd (panic-not_ok e)
  destroy_found-gone name path (some tg) κ {κ'} d k e =
      let (u, ea, eb) =
        >>=-eq-ok (remove f path κ) (λ v. ok (g.cgroup_put name (unregister tg v))) e in
      let (x, at_u) = remove-eq-ok f path κ ea in
      let same : g.cgroup_put name (unregister tg u) ≡ κ' = ok-inj eb in
      let gone : is_zero (f.kern_path path u) ≡ false = rw (← at_u) (d.removed path κ x) in
      rw (← same, k.put name path (unregister tg u), unregister-path k tg path u) gone

  -- Where mkdir and rmdir do to their directory what `Directories` says, and nothing else removes or
  -- makes one: a cgroup whose destruction does not panic is not the root, and does not exist after.
  pub cgroup_destroy-gone :
      (name : Bytes) (κ : K) {κ' : K}
      → Directories f
      → KeepsPaths
      → cgroup_destroy name κ ≡ ok κ'
      → (0 < length name) × (cgroup_exists f name κ' ≡ false)
  unfolding cgroup_destroy
  cgroup_destroy-gone name κ {κ'} d k e =
      let path = scnprintf (cgroup_root ++ name) in
      elim (Bool-cases (length name == 0)) [
        | inl root ↦ absurd (panic-not_ok (rw root at e))
        | inr x ↦ elim (Bool-cases (length path == 0 || leb max_length (length path))) [
          | inl bad ↦ absurd (panic-not_ok (rw (x, bad) at e))
          | inr y ↦ (
            ground (arith, x),
            cgroup_exists-cut f name κ'
                ∙ destroy_found-gone name path (g.cgroup_get name κ) κ d k (rw (x, y) at e),
          )
        ]
      ]
