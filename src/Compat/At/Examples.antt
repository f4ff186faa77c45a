-- ===== src/Compat/At/Examples.antt =====
-- The theorems on ports/glibc-compat/src/openat.c on a system whose state is the current directory and
-- the number of changes to its files.
use webports.Prelude.{ℕ, ◌+◌, ℤ, pos, negsuc, true, List, [], ◌∷◌, some, ◌≡◌, refl, ◌==◌}
use webports.Compat.At.{
  System, openat, fdopendir, fstatat, fchmodat, readlinkat, unlinkat, faccessat, mkdirat, fchownat,
  symlinkat,
}
use webports.Compat.At.Back.{IsSystem, Leaves, Acts, at_calls-Acts}

-- Descriptor `n` is that of directory `/n`.
abbrev State : Type 0
State = List ℕ × ℕ

abbrev changed : State → State
changed k = (k.0, k.1 + 1)

abbrev fchdir_of : ℤ → State → State × ℤ
fchdir_of (pos n) k = ((47 ∷ n ∷ [], k.1), pos 0)
fchdir_of (negsuc n) k = (k, negsuc 0)

abbrev tiny : System State
tiny = record {
  at_fdcwd = negsuc 99;
  path_max = 4096;
  einval = 22;
  symlink_nofollow = λ f. f == 256;
  removedir = λ f. f == 512;
  malloc = λ n k. (k, true);
  getcwd = λ n k. (k, some k.0);
  chdir = λ p k. ((p, k.1), pos 0);
  fchdir = fchdir_of;
  set_errno = λ e k. k;
  open_file = λ p a k. (changed k, pos 3);
  stat = λ p a k. (k, pos 0);
  lstat = λ p a k. (k, pos 0);
  chmod = λ p a k. (changed k, pos 0);
  access = λ p a k. (k, pos 0);
  mkdir = λ p a k. (changed k, pos 0);
  readlink = λ p a n k. (k, pos n);
  rmdir = λ p k. (changed k, pos 0);
  unlink = λ p k. (changed k, pos 0);
  opendir = λ p k. (k, pos 7);
  chown = λ p a b k. (changed k, pos 0);
  symlink = λ p q k. (changed k, pos 0);
  link = λ p q k. (changed k, pos 0);
}

refusal : (fd : ℤ) (k : State) → (fchdir_of fd k).1 ≡ negsuc 0 → (fchdir_of fd k).0.0 ≡ k.0
refusal (pos n) k e = cc
refusal (negsuc n) k e = refl

fchdir_of-files : (fd : ℤ) (k : State) → (fchdir_of fd k).0.1 ≡ k.1
fchdir_of-files (pos n) k = refl
fchdir_of-files (negsuc n) k = refl

tiny-IsSystem : IsSystem tiny (λ k. k.0) (λ k. k.1)
tiny-IsSystem = record {
  malloc-cwd = λ n k. refl;
  getcwd-cwd = λ n k. refl;
  getcwd-eq = λ n k p e. cc;
  chdir-cwd = λ p k e. refl;
  fchdir-cwd = refusal;
  malloc-files = λ n k. refl;
  getcwd-files = λ n k. refl;
  chdir-files = λ p k. refl;
  fchdir-files = fchdir_of-files;
}

tiny-Leaves : Leaves tiny (λ k. k.0) (λ k. k.1) tiny-IsSystem
tiny-Leaves = record {
  open_file-cwd = λ p a k. refl;
  stat-cwd = λ p a k. refl;
  lstat-cwd = λ p a k. refl;
  chmod-cwd = λ p a k. refl;
  access-cwd = λ p a k. refl;
  mkdir-cwd = λ p a k. refl;
  readlink-cwd = λ p a n k. refl;
  rmdir-cwd = λ p k. refl;
  unlink-cwd = λ p k. refl;
  opendir-cwd = λ p k. refl;
  chown-cwd = λ p a b k. refl;
  symlink-cwd = λ p q k. refl;
}

abbrev home : State
home = (47 ∷ 8 ∷ [], 0)

abbrev there : List ℕ
there = 47 ∷ 5 ∷ []

at_calls-Acts_example :
    Acts tiny
      (λ k. k.0)
      (λ k. k.1)
      tiny-IsSystem
      (tiny.open_file (97 ∷ []) 0)
      there
      home
      (openat tiny (pos 5) (97 ∷ []) 0 home)
    × Acts tiny
        (λ k. k.0)
        (λ k. k.1)
        tiny-IsSystem
        (tiny.lstat (97 ∷ []) 0)
        there
        home
        (fstatat tiny (pos 5) (97 ∷ []) 0 256 home)
    × Acts tiny
        (λ k. k.0)
        (λ k. k.1)
        tiny-IsSystem
        (tiny.chmod (97 ∷ []) 0)
        there
        home
        (fchmodat tiny (pos 5) (97 ∷ []) 0 256 home)
    × Acts tiny
        (λ k. k.0)
        (λ k. k.1)
        tiny-IsSystem
        (tiny.readlink (97 ∷ []) 0 256)
        there
        home
        (readlinkat tiny (pos 5) (97 ∷ []) 0 256 home)
    × Acts tiny
        (λ k. k.0)
        (λ k. k.1)
        tiny-IsSystem
        (tiny.unlink (97 ∷ []))
        there
        home
        (unlinkat tiny (pos 5) (97 ∷ []) 0 home)
    × Acts tiny
        (λ k. k.0)
        (λ k. k.1)
        tiny-IsSystem
        (tiny.access (97 ∷ []) 0)
        there
        home
        (faccessat tiny (pos 5) (97 ∷ []) 0 256 home)
    × Acts tiny
        (λ k. k.0)
        (λ k. k.1)
        tiny-IsSystem
        (tiny.opendir (46 ∷ []))
        there
        home
        (fdopendir tiny (pos 5) home)
    × Acts tiny
        (λ k. k.0)
        (λ k. k.1)
        tiny-IsSystem
        (tiny.mkdir (97 ∷ []) 0)
        there
        home
        (mkdirat tiny (pos 5) (97 ∷ []) 0 home)
    × Acts tiny
        (λ k. k.0)
        (λ k. k.1)
        tiny-IsSystem
        (tiny.chown (97 ∷ []) 0 256)
        there
        home
        (fchownat tiny (pos 5) (97 ∷ []) 0 256 256 home)
    × Acts tiny
        (λ k. k.0)
        (λ k. k.1)
        tiny-IsSystem
        (tiny.symlink (98 ∷ []) (97 ∷ []))
        there
        home
        (symlinkat tiny (98 ∷ []) (pos 5) (97 ∷ []) home)
at_calls-Acts_example =
    at_calls-Acts tiny (λ k. k.0) (λ k. k.1) tiny-IsSystem tiny-Leaves (pos 5) home (λ k1. refl)
      there (97 ∷ []) (98 ∷ []) 0 256 (λ k1 e. refl) (λ e. cc)
