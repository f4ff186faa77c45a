-- ===== src/Compat/At.antt =====
-- ports/glibc-compat/src/openat.c: calls relative to a directory's descriptor, by a change of the
-- current directory there and back.
pub mod Back
mod Examples
use webports.Prelude.{
  ◌+◌, ℕ, ℤ, pos, negsuc, eq_int, Bool, false, ◌&&◌, List, [], ◌∷◌, Option, none, some, ◌==◌,
  if◌then◌else◌,
}

-- The system's calls on the state `K` of process, memory and file system. A buffer is an address.
pub record System (K : Type 0) : Type 0 where
  pub at_fdcwd : ℤ
  pub path_max : ℕ
  pub einval : ℕ
  pub symlink_nofollow : ℕ → Bool
  pub removedir : ℕ → Bool
  pub malloc : ℕ → K → K × Bool
  pub getcwd : ℕ → K → K × Option (List ℕ)
  pub chdir : List ℕ → K → K × ℤ
  pub fchdir : ℤ → K → K × ℤ
  pub set_errno : ℕ → K → K
  pub open_file : List ℕ → ℕ → K → K × ℤ
  pub stat : List ℕ → ℕ → K → K × ℤ
  pub lstat : List ℕ → ℕ → K → K × ℤ
  pub chmod : List ℕ → ℕ → K → K × ℤ
  pub access : List ℕ → ℕ → K → K × ℤ
  pub mkdir : List ℕ → ℕ → K → K × ℤ
  pub readlink : List ℕ → ℕ → ℕ → K → K × ℤ
  pub rmdir : List ℕ → K → K × ℤ
  pub unlink : List ℕ → K → K × ℤ
  pub opendir : List ℕ → K → K × ℤ
  pub chown : List ℕ → ℕ → ℕ → K → K × ℤ
  pub symlink : List ℕ → List ℕ → K → K × ℤ
  pub link : List ℕ → List ℕ → K → K × ℤ

infixl 5 ◌>>=◌
abbrev pub ◌>>=◌ {ℓ κ} : {A : Type ℓ} {B : Type κ} → Option A → (A → Option B) → Option B
none >>= f = none
some a >>= f = f a

module _ {K : Type 0} (sys : System K) where
  -- `none` is an exit of the process, for want of memory or of a current directory.
  unfoldable pub xgetcwd : K → Option (K × List ℕ)
  xgetcwd k =
      let (k1, enough) = sys.malloc (sys.path_max + 1) k in
      let (k2, buf) = sys.getcwd (sys.path_max + 1) k1 in
      if enough then buf >>= (λ save. some (k2, save)) else none

  -- `_AT_WRAP_START`: the directory to go back to, and whether `fchdir` failed, which is only
  -- reported.
  unfoldable pub at_wrap_enter : ℤ → K × List ℕ → Option (K × List ℕ × Bool)
  at_wrap_enter dirfd (k, save) =
      let (k1, fchdir_err) = sys.fchdir dirfd k in
      if eq_int dirfd sys.at_fdcwd
      then some (k, save, false)
      else some (k1, save, eq_int fchdir_err (negsuc 0))

  unfoldable pub at_wrap_start : ℤ → K → Option (K × List ℕ × Bool)
  unfolding xgetcwd at_wrap_enter
  at_wrap_start dirfd k = xgetcwd k >>= at_wrap_enter dirfd

  -- `_AT_WRAP_END`; what `chdir` returns is not looked at.
  unfoldable pub at_wrap_end : ℤ → List ℕ → K → K
  at_wrap_end dirfd save k = if eq_int dirfd sys.at_fdcwd then k else (sys.chdir save k).0

  -- A call between the two.
  unfoldable pub at_wrap_call : ℤ → (K → K × ℤ) → K × List ℕ × Bool → Option (K × ℤ)
  unfolding at_wrap_end
  at_wrap_call dirfd call (k, save, fchdir_err) =
      let (k1, result) = call k in some (at_wrap_end dirfd save k1, result)

  unfoldable pub at_wrap : ℤ → (K → K × ℤ) → K → Option (K × ℤ)
  unfolding at_wrap_start at_wrap_call
  at_wrap dirfd call k = at_wrap_start dirfd k >>= at_wrap_call dirfd call

  unfoldable pub openat : ℤ → List ℕ → ℕ → K → Option (K × ℤ)
  unfolding at_wrap
  openat dirfd pathname flags = at_wrap dirfd (sys.open_file pathname flags)

  unfoldable pub fstatat : ℤ → List ℕ → ℕ → ℕ → K → Option (K × ℤ)
  unfolding at_wrap
  fstatat dirfd pathname buf flags =
      at_wrap dirfd
        (if sys.symlink_nofollow flags then sys.lstat pathname buf else sys.stat pathname buf)

  unfoldable pub fchmodat : ℤ → List ℕ → ℕ → ℕ → K → Option (K × ℤ)
  unfolding at_wrap
  fchmodat dirfd pathname mode flags = at_wrap dirfd (sys.chmod pathname mode)

  unfoldable pub readlinkat : ℤ → List ℕ → ℕ → ℕ → K → Option (K × ℤ)
  unfolding at_wrap
  readlinkat dirfd pathname buf bufsiz = at_wrap dirfd (sys.readlink pathname buf bufsiz)

  unfoldable pub unlinkat : ℤ → List ℕ → ℕ → K → Option (K × ℤ)
  unfolding at_wrap
  unlinkat dirfd pathname flags =
      at_wrap dirfd (if sys.removedir flags then sys.rmdir pathname else sys.unlink pathname)

  unfoldable pub faccessat : ℤ → List ℕ → ℕ → ℕ → K → Option (K × ℤ)
  unfolding at_wrap
  faccessat dirfd pathname mode flags = at_wrap dirfd (sys.access pathname mode)

  -- `opendir(".")`, after a failed `fchdir` too.
  unfoldable pub fdopendir : ℤ → K → Option (K × ℤ)
  unfolding at_wrap
  fdopendir dirfd = at_wrap dirfd (sys.opendir (46 ∷ []))

  unfoldable pub mkdirat : ℤ → List ℕ → ℕ → K → Option (K × ℤ)
  unfolding at_wrap
  mkdirat dirfd pathname mode = at_wrap dirfd (sys.mkdir pathname mode)

  unfoldable pub mknodat : ℤ → List ℕ → ℕ → ℕ → K → Option (K × ℤ)
  mknodat dirfd pathname mode dev k = some (k, pos 1)

  unfoldable pub fchownat : ℤ → List ℕ → ℕ → ℕ → ℕ → K → Option (K × ℤ)
  unfolding at_wrap
  fchownat dirfd pathname owner group flags = at_wrap dirfd (sys.chown pathname owner group)

  unfoldable pub symlinkat : List ℕ → ℤ → List ℕ → K → Option (K × ℤ)
  unfolding at_wrap
  symlinkat oldpath dirfd newpath = at_wrap dirfd (sys.symlink oldpath newpath)

  -- `path[0] == '/'`
  abbrev is_absolute : List ℕ → Bool
  is_absolute [] = false
  is_absolute (c ∷ rest) = c == 47

  unfoldable pub linkat : ℤ → List ℕ → ℤ → List ℕ → ℕ → K → Option (K × ℤ)
  linkat olddirfd oldpath newdirfd newpath flags k =
      if is_absolute oldpath && is_absolute newpath
      then some (sys.link oldpath newpath k)
      else some (sys.set_errno sys.einval k, negsuc 0)
