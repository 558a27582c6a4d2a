-- ===== src/Kernel.antt =====
-- kmod/kernel.c: writes to the files of the kernel, and cgroups.
pub mod Paths
pub mod Features
pub mod Freezer
pub mod Groups
mod Tests
use kstep.Prelude.{
  ℕ, zero, suc, ◌+◌, ◌-◌, Bool, true, false, not, ◌&&◌, ◌||◌, List, [], ◌∷◌, ◌++◌, map, length, leb,
  ◌==◌, if◌then◌else◌, Outcome, ok, panic, bad_format, rmdir_failed, no_path, no_write_access,
  ◌>>=◌,
}
use kstep.Prelude.Int.{ℤ, pos, negsuc}
use kstep.Text.{Bytes, lit, strscpy}
use kstep.Cli.{is_zero}

-- MAX_PATH_LENGTH and MAX_DATA_LENGTH
abbrev pub max_length : ℕ
max_length = 512

abbrev pub sysctl_root : Bytes
sysctl_root = lit "/proc/sys/"

abbrev pub cgroup_root : Bytes
cgroup_root = lit "/sys/fs/cgroup/"

abbrev pub is_negative : ℤ → Bool
is_negative (pos n) = false
is_negative (negsuc n) = true

-- What is called of the file system: an error of opening a file, a write at its start, the creation
-- of a directory (`start_creating_path` with `vfs_mkdir`), the lookup of one (`kern_path`), and its
-- removal.
pub record Files (K : Type 0) : Type 0 where
  pub open_error : Bytes → K → ℤ
  pub kernel_write : Bytes → Bytes → K → ℤ × K
  pub mkdir : Bytes → K → ℤ × K
  pub kern_path : Bytes → K → ℤ
  pub mnt_want_write : Bytes → K → ℤ
  pub vfs_rmdir : Bytes → K → ℤ × K

-- `scnprintf(path, sizeof(path), "%s", text)`: what stands in `path`, and its length, which is
-- returned.
abbrev pub scnprintf : Bytes → Bytes
scnprintf text = strscpy max_length text

module _ {K : Type 0} (f : Files K) where
  unfoldable pub write : Bytes → Bytes → K → ℤ × K
  write path buf κ =
      if is_negative (f.open_error path κ)
      then (f.open_error path κ, κ)
      else if is_negative (f.kernel_write path buf κ).0
      then f.kernel_write path buf κ
      else (pos 0, (f.kernel_write path buf κ).1)

  -- `data` is the formatted text; `write` is called with the path and the bytes.
  unfoldable pub sysctl_write : Bytes → Bytes → K → Outcome (Bytes × Bytes × K)
  sysctl_write name data_text κ =
      let path = sysctl_root ++ map (λ c. if c == b'.' then b'/' else c) name in
      let bytes = data_text ++ (b'\n' ∷ []) in
      if length data_text == 0 || leb (max_length - 1) (length data_text)
      then panic bad_format
      else if leb max_length (length sysctl_root + length name)
      then panic bad_format
      else ok (path, bytes, (write path bytes κ).1)

  unfoldable pub cgroup_write : Bytes → Bytes → Bytes → K → Outcome (ℤ × K)
  cgroup_write name filename data_text κ =
      let path = scnprintf (cgroup_root ++ (name ++ (b'/' ∷ filename))) in
      if length data_text == 0 || leb max_length (length data_text)
      then panic bad_format
      else if length path == 0 || leb max_length (length path)
      then panic bad_format
      else ok (write path data_text κ)

  -- `kstep_rmdir`.
  unfoldable pub remove : Bytes → K → Outcome K
  remove dir κ =
      if not (is_zero (f.kern_path dir κ))
      then panic no_path
      else if not (is_zero (f.mnt_want_write dir κ))
      then panic no_write_access
      else if not (is_zero (f.vfs_rmdir dir κ).0)
      then panic rmdir_failed
      else ok (f.vfs_rmdir dir κ).1

  unfoldable pub cgroup_exists : Bytes → K → Bool
  cgroup_exists name κ =
      let path = scnprintf (cgroup_root ++ name) in
      if leb max_length (length path) then false else is_zero (f.kern_path path κ)

  pub cgroup_set_cpuset : Bytes → Bytes → K → Outcome (ℤ × K)
  cgroup_set_cpuset name cpuset κ = cgroup_write name (lit "cpuset.cpus") cpuset κ

  pub cgroup_set_weight : Bytes → Bytes → K → Outcome (ℤ × K)
  cgroup_set_weight name weight κ = cgroup_write name (lit "cpu.weight") weight κ

  pub cgroup_move_task : Bytes → Bytes → K → Outcome (ℤ × K)
  cgroup_move_task name pid κ = cgroup_write name (lit "cgroup.procs") pid κ

  -- The second write is made if the first returns 0.
  configure : Bytes → Bytes → K → Outcome (ℤ × K)
  unfolding cgroup_set_cpuset
  configure name cpuset κ =
      cgroup_write name (lit "cgroup.subtree_control") (lit "+cpu +cpuset") κ >>= λ r.
      if is_zero r.0 then cgroup_set_cpuset name cpuset r.1 else ok r

  -- On an error the directory is removed again.
  undo : Bytes → ℤ × K → Outcome (ℤ × K)
  undo path r = if is_zero r.0 then ok r else (remove path r.1 >>= λ κ. ok (r.0, κ))

  -- `cpuset` is the text 1-K.
  unfoldable pub cgroup_create : Bytes → Bytes → K → Outcome (ℤ × K)
  unfolding configure undo
  cgroup_create name cpuset κ =
      let path = scnprintf (cgroup_root ++ name) in
      if leb max_length (length path)
      then panic bad_format
      else if is_zero (f.mkdir path κ).0
      then (configure name cpuset (f.mkdir path κ).1 >>= undo path)
      else ok (f.mkdir path κ)
