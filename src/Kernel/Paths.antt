-- ===== src/Kernel/Paths.antt =====
-- What the writes and the cgroup operations come to.
use kstep.Prelude.{
  panic-not_ok, ok-inj, ℕ, zero, suc, ◌+◌, ◌-◌, ◌≤◌, ◌<◌, true, false, ◌||◌, [], ◌∷◌, ◌++◌, map,
  length, length-append, leb, ◌==◌, if◌then◌else◌, ◌≡◌, refl, sym, ap, ◌∙◌, arith, Bool-cases, inl,
  inr, ok, >>=-eq-ok,
}
use kstep.Prelude.Int.{ℤ}
use kstep.Text.{Bytes, strscpy}
use kstep.Cli.{is_zero}
use kstep.Kernel.{
  max_length, sysctl_root, cgroup_root, scnprintf, Files, sysctl_write, remove, cgroup_exists,
  configure, undo, cgroup_create,
}

-- A copy into a buffer leaves room for its NUL.
length-strscpy : (n : ℕ) (s : Bytes) → length (strscpy (suc n) s) ≤ n
unfolding strscpy
length-strscpy zero s = omega arith
length-strscpy (suc n) [] = omega arith
length-strscpy (suc n) (x ∷ s) = let h = length-strscpy n s in omega (arith, h)

length-map : (g : ℕ → ℕ) (s : Bytes) → length (map g s) ≡ length s
length-map g [] = refl
length-map g (c ∷ s) = ap suc (length-map g s)

-- What the file system does with directories, as its callers know it.
pub record Directories {K : Type 0} (f : Files K) : Type 0 where
  pub fails :
      (d : Bytes) (κ : K)
      → is_zero (f.mkdir d κ).0 ≡ false
      → is_zero (f.kern_path d (f.mkdir d κ).1) ≡ is_zero (f.kern_path d κ)
  pub fresh :
      (d : Bytes) (κ : K) → is_zero (f.mkdir d κ).0 ≡ true → is_zero (f.kern_path d κ) ≡ false
  pub removed :
      (d : Bytes) (κ : K)
      → is_zero (f.vfs_rmdir d κ).0 ≡ true
      → is_zero (f.kern_path d (f.vfs_rmdir d κ).1) ≡ false

module _ {K : Type 0} (f : Files K) where
  -- Whether a cgroup exists is answered for the directory of the path that scnprintf stores, for
  -- every name: a path that does not fit is cut, and no name is refused for its length.
  pub cgroup_exists-cut :
      (name : Bytes) (κ : K)
      → cgroup_exists f name κ ≡ is_zero (f.kern_path (scnprintf (cgroup_root ++ name)) κ)
  unfolding cgroup_exists
  cgroup_exists-cut name κ =
      let h = length-strscpy 511 (cgroup_root ++ name) in
      let fits : leb 512 (length (strscpy 512 (cgroup_root ++ name))) ≡ false = ground (arith, h) in
      rw fits

  -- A removal that does not panic did one that returned 0.
  pub remove-eq-ok :
      (dir : Bytes) (κ : K) {u : K}
      → remove f dir κ ≡ ok u
      → (is_zero (f.vfs_rmdir dir κ).0 ≡ true) × ((f.vfs_rmdir dir κ).1 ≡ u)
  unfolding remove
  remove-eq-ok dir κ e = elim (Bool-cases (is_zero (f.kern_path dir κ))) [
    | inr x ↦ absurd (panic-not_ok (rw x at e))
    | inl x ↦ elim (Bool-cases (is_zero (f.mnt_want_write dir κ))) [
      | inr y ↦ absurd (panic-not_ok (rw (x, y) at e))
      | inl y ↦ elim (Bool-cases (is_zero (f.vfs_rmdir dir κ).0)) [
        | inl z ↦ (z, ok-inj (rw (x, y, z) at e))
        | inr z ↦ absurd (panic-not_ok (rw (x, y, z) at e))
      ]
    ]
  ]

  undo-clean :
      (d : Directories f) (path : Bytes) (r : ℤ × K) {err : ℤ} {κ' : K}
      → undo f path r ≡ ok (err, κ')
      → is_zero err ≡ false
      → is_zero (f.kern_path path κ') ≡ false
  unfolding undo
  undo-clean d path r {err} {κ'} e z = elim (Bool-cases (is_zero r.0)) [
    | inl y ↦
        let same : r.0 ≡ err = ap (λ (p : ℤ × K). p.0) (ok-inj (rw y at e)) in
        absurd (both (sym y ∙ (ap is_zero same ∙ z)))
    | inr y ↦
        let (u, ea, eb) = >>=-eq-ok (remove f path r.1) (λ κ. ok (r.0, κ)) (rw y at e) in
        let (x, at_u) = remove-eq-ok path r.1 ea in
        let same : u ≡ κ' = ap (λ (p : ℤ × K). p.1) (ok-inj eb) in
        rw (← same, ← at_u) (d.removed path r.1 x)
  ]
    where
      both : true ≡ false → ⊥
      both h = cc

  -- Where mkdir and rmdir do to their directory what `Directories` says, a cgroup_create that
  -- returns an error leaves the directory of the cgroup there exactly if it was there before.
  pub cgroup_create-clean :
      (name cpuset : Bytes) (κ : K) {err : ℤ} {κ' : K}
      → Directories f
      → cgroup_create f name cpuset κ ≡ ok (err, κ')
      → is_zero err ≡ false
      → is_zero (f.kern_path (scnprintf (cgroup_root ++ name)) κ')
        ≡ is_zero (f.kern_path (scnprintf (cgroup_root ++ name)) κ)
  unfolding cgroup_create
  cgroup_create-clean name cpuset κ {err} {κ'} d e z =
      let path = scnprintf (cgroup_root ++ name) in
      elim (Bool-cases (leb max_length (length path))) [
        | inl x ↦ absurd (panic-not_ok (rw x at e))
        | inr x ↦ elim (Bool-cases (is_zero (f.mkdir path κ).0)) [
          | inl y ↦
              let (r, ea, eb) =
                >>=-eq-ok (configure f name cpuset (f.mkdir path κ).1) (undo f path)
                  (rw (x, y) at e) in
              undo-clean d path r eb z ∙ sym (d.fresh path κ y)
          | inr y ↦
              let same : (f.mkdir path κ).1 ≡ κ' =
                ap (λ (p : ℤ × K). p.1) (ok-inj (rw (x, y) at e)) in
              rw (← same) (d.fails path κ y)
        ]
      ]

  -- A sysctl write that does not panic has a path and data that fit their arrays with the NUL, and
  -- the data is the formatted text with a newline.
  pub sysctl_write-fits :
      (name data_text path bytes : Bytes) (κ : K) {κ' : K}
      → sysctl_write f name data_text κ ≡ ok (path, bytes, κ')
      → (length path < max_length)
        × (length bytes < max_length)
        × (bytes ≡ data_text ++ (b'\n' ∷ []))
  unfolding sysctl_write
  sysctl_write-fits name data_text path bytes κ {κ'} e =
      elim (Bool-cases (length data_text == 0 || leb (max_length - 1) (length data_text))) [
        | inl x ↦ absurd (panic-not_ok (rw x at e))
        | inr x ↦ elim (Bool-cases (leb max_length (length sysctl_root + length name))) [
          | inl y ↦ absurd (panic-not_ok (rw (x, y) at e))
          | inr y ↦
              let p = ok-inj (rw (x, y) at e) in
              let to_slash = λ (c : ℕ). if c == b'.' then b'/' else c in
              let path_is = ap (λ (t : Bytes × Bytes × K). length t.0) p in
              let bytes_is = ap (λ (t : Bytes × Bytes × K). t.1) p in
              (
                ground (
                  arith,
                  y,
                  path_is,
                  length-append sysctl_root (map to_slash name),
                  length-map to_slash name,
                ),
                ground (arith, x, ap length bytes_is, length-append data_text (b'\n' ∷ [])),
                sym bytes_is,
              )
        ]
      ]
