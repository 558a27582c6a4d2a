-- ===== src/Kernel/Tests.antt =====
-- A file system of one directory, whose files do not open.
use kstep.Prelude.{
  if◌then◌else◌, arith, ℕ, List, get_or, ◌>>=◌, none, some, Bool, true, false, [], ◌∷◌, ◌++◌,
  length, ok, ◌≡◌, refl,
}
use kstep.Prelude.Int.{ℤ, pos, negsuc}
use kstep.Text.{Bytes, equal, strstarts, lit, strscpy}
use kstep.Cli.{is_zero}
use kstep.Kernel.{
  cgroup_root, scnprintf, Files, write, sysctl_write, cgroup_write, remove, configure, undo,
  cgroup_create,
}
use kstep.Cpu.Mask.{test_cpu}
use kstep.Kernel.Groups.{Groups, KeepsPaths, cgroup_destroy}
use kstep.Kernel.Features.{Word, IsName, feat_index, feat_enable, feat_disable, feat_toggle}
use kstep.Kernel.Freezer
use kstep.Kernel.Freezer.{Tasks, Freezer, freeze_task-restored}
use kstep.Kernel.Paths.{Directories, cgroup_create-clean}

mkdir_one : Bool → ℤ × Bool
mkdir_one true = (negsuc 16, true)
mkdir_one false = (pos 0, true)

rmdir_one : Bool → ℤ × Bool
rmdir_one true = (pos 0, false)
rmdir_one false = (negsuc 1, false)

lookup_one : Bool → ℤ
lookup_one true = pos 0
lookup_one false = negsuc 1

abbrev one : Files Bool
one = record {
  open_error = λ path κ. negsuc 1;
  kernel_write = λ path buf κ. (pos (length buf), κ);
  mkdir = λ d κ. mkdir_one κ;
  kern_path = λ d κ. lookup_one κ;
  mnt_want_write = λ d κ. pos 0;
  vfs_rmdir = λ d κ. rmdir_one κ;
}

fails_one :
    (κ : Bool)
    → is_zero (mkdir_one κ).0 ≡ false
    → is_zero (lookup_one (mkdir_one κ).1) ≡ is_zero (lookup_one κ)
unfolding mkdir_one lookup_one
fails_one true h = refl
fails_one false h = cc

fresh_one : (κ : Bool) → is_zero (mkdir_one κ).0 ≡ true → is_zero (lookup_one κ) ≡ false
unfolding mkdir_one lookup_one
fresh_one true h = cc
fresh_one false h = refl

removed_one :
    (κ : Bool) → is_zero (rmdir_one κ).0 ≡ true → is_zero (lookup_one (rmdir_one κ).1) ≡ false
unfolding rmdir_one lookup_one
removed_one true h = refl
removed_one false h = refl

one-Directories : Directories one
one-Directories = record {
  fails = λ d κ. fails_one κ;
  fresh = λ d κ. fresh_one κ;
  removed = λ d κ. removed_one κ;
}

created : cgroup_create one (lit "g") (lit "1-3") false ≡ ok (negsuc 1, false)
unfolding cgroup_create configure undo remove cgroup_write write mkdir_one rmdir_one lookup_one
    strscpy
created = refl

cgroup_create-clean_example :
    is_zero (one.kern_path (scnprintf (cgroup_root ++ lit "g")) false)
    ≡ is_zero (one.kern_path (scnprintf (cgroup_root ++ lit "g")) false)
cgroup_create-clean_example =
    cgroup_create-clean one (lit "g") (lit "1-3") false one-Directories created refl

written :
    sysctl_write one (lit "a.b") (lit "1") true
    ≡ ok (lit "/proc/sys/a/b", lit "1" ++ (b'\n' ∷ []), true)
unfolding sysctl_write write
written = refl

-- The semaphores and the task group leave the one directory alone.
abbrev keeping : Groups Bool
keeping = record {
  enter_threadgroup = λ κ. κ;
  cpuset_rwsem = none;
  cgroup_get = λ name κ. if κ then some (some 3) else none;
  unregister_fair_sched_group = λ tg κ. κ;
  cgroup_put = λ name κ. κ;
}

keeping-KeepsPaths : KeepsPaths one keeping
keeping-KeepsPaths = record { unregister = λ tg d κ. refl; put = λ name d κ. refl }

destroyed : cgroup_destroy one keeping (lit "g") true ≡ ok false
unfolding cgroup_destroy remove rmdir_one lookup_one strscpy
destroyed = refl

abbrev feats : List Bytes
feats = lit "PLACE_LAG" ∷ lit "NI_RANDOM" ∷ []

abbrev bits : Word
bits = true ∷ false ∷ []

ni_random-IsName : IsName feats (lit "NI_RANDOM") bits 1
ni_random-IsName = record {
  known = known_at;
  in_word = omega arith;
  some_name = omega arith;
  fits = omega arith;
  plain = starts;
}
  where
    known_at : feat_index (lit "NI_RANDOM") 0 feats ≡ some 1
    known_at = unfold feat_index equal in refl

    starts : strstarts (lit "NI_RANDOM") (lit "NO_") ≡ false
    starts = unfold strstarts in refl

feat_toggle_example :
    (feat_enable feats (lit "NI_RANDOM") bits ≡ ok (true ∷ true ∷ []))
    × ((feat_enable feats (lit "NI_RANDOM") bits >>= feat_disable feats (lit "NI_RANDOM"))
        ≡ ok bits)
    × (get_or bits 1 false ≡ false
        → (feat_enable feats (lit "NI_RANDOM") bits >>= feat_disable feats (lit "NI_RANDOM"))
          ≡ ok bits)
feat_toggle_example = feat_toggle feats (lit "NI_RANDOM") bits 1 ni_random-IsName

-- Tasks of whom the frozen ones are listed.
abbrev listed : Tasks (List ℕ)
listed = record {
  is_frozen = λ p κ. test_cpu p κ;
  state = λ p κ. if test_cpu p κ then 32768 else 1;
  freeze_task = λ freezing p κ. if freezing then p ∷ κ else κ;
  thaw_task = λ p κ. [];
}

abbrev cold : Freezer (List ℕ)
cold = record { pm_freezing = false; freezer_active = 0; kernel = []; events = [] }

freeze_task-restored_example :
    ((Freezer.freeze_task listed 7 cold).pm_freezing ≡ false)
    × ((Freezer.freeze_task listed 7 cold).freezer_active ≡ 0)
    × ((Freezer.freeze_task listed 7 cold).kernel ≡ 7 ∷ [])
    × ((Freezer.freeze_task listed 7 cold).events ≡ (7, 1) ∷ [])
freeze_task-restored_example = freeze_task-restored listed 7 cold
