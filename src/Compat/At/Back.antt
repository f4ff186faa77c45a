-- ===== src/Compat/At/Back.antt =====
-- Where the calls of ports/glibc-compat/src/openat.c act, and that they come back.
use webports.Prelude.{
  ◌+◌, ℕ, ℤ, pos, negsuc, eq_int, Bool, true, false, List, [], ◌∷◌, Option, none, some, ◌≡◌, refl,
  sym, ◌⊎◌, ◌∙◌, inl, inr, if◌then◌else◌, Bool-cases,
}
use webports.Compat.At.{
  ◌>>=◌, System, xgetcwd, at_wrap_enter, at_wrap_start, at_wrap_end, at_wrap_call, at_wrap, openat,
  fstatat, fchmodat, readlinkat, unlinkat, faccessat, fdopendir, mkdirat, fchownat, symlinkat,
}

-- What the system documents of the current directory `cwd`, and of all else that a call can see or
-- change, `files`: changes of directory and the search for a path leave the latter alone.
pub record IsSystem {K F : Type 0} (sys : System K) (cwd : K → List ℕ) (files : K → F)
    : Type 0 where
  pub malloc-cwd : (n : ℕ) (k : K) → cwd (sys.malloc n k).0 ≡ cwd k
  pub getcwd-cwd : (n : ℕ) (k : K) → cwd (sys.getcwd n k).0 ≡ cwd k
  pub getcwd-eq : (n : ℕ) (k : K) (p : List ℕ) → (sys.getcwd n k).1 ≡ some p → p ≡ cwd k
  pub chdir-cwd : (p : List ℕ) (k : K) → (sys.chdir p k).1 ≡ pos 0 → cwd (sys.chdir p k).0 ≡ p
  pub fchdir-cwd :
      (fd : ℤ) (k : K) → (sys.fchdir fd k).1 ≡ negsuc 0 → cwd (sys.fchdir fd k).0 ≡ cwd k
  pub malloc-files : (n : ℕ) (k : K) → files (sys.malloc n k).0 ≡ files k
  pub getcwd-files : (n : ℕ) (k : K) → files (sys.getcwd n k).0 ≡ files k
  pub chdir-files : (p : List ℕ) (k : K) → files (sys.chdir p k).0 ≡ files k
  pub fchdir-files : (fd : ℤ) (k : K) → files (sys.fchdir fd k).0 ≡ files k

module _ {K F : Type 0} (sys : System K) (cwd : K → List ℕ) (files : K → F)
    (documented : IsSystem sys cwd files) where
  -- There is no memory for a path, or no path of the current directory.
  abbrev pub Exits : K → Type 0
  Exits k =
      ((sys.malloc (sys.path_max + 1) k).1 ≡ false)
      ⊎ ((sys.getcwd (sys.path_max + 1) (sys.malloc (sys.path_max + 1) k).0).1 ≡ none)

  -- A call was made in the directory `dir` on the files of `k0`, its result is returned, the files
  -- afterwards are those that it left, and the current directory is that of `k0`; or the process
  -- exits for one of these reasons.
  abbrev pub Acts : (K → K × ℤ) → List ℕ → K → Option (K × ℤ) → Type 0
  Acts call dir k0 none = Exits k0
  Acts call dir k0 (some (k', r)) =
      (k : K) × (cwd k ≡ dir)
      × (files k ≡ files k0)
      × (r ≡ (call k).1)
      × (files k' ≡ files (call k).0)
      × (cwd k' ≡ cwd k0)

  -- What `xgetcwd` returns, if it does.
  abbrev Got : K → Option (K × List ℕ) → Type 0
  Got k0 none = Exits k0
  Got k0 (some (k, save)) = (cwd k ≡ cwd k0) × (save ≡ cwd k0) × (files k ≡ files k0)

  xgetcwd-Got : (k : K) → Got k (xgetcwd sys k)
  unfolding xgetcwd
  xgetcwd-Got k =
      let n = sys.path_max + 1 in
      let k1 = (sys.malloc n k).0 in
      let found = sys.getcwd n k1 in
      let at = documented.getcwd-cwd n k1 ∙ documented.malloc-cwd n k in
      (elim (sys.malloc n k).1
          as (λ b.
            (sys.malloc n k).1 ≡ b
            → Got k (if b then found.1 >>= (λ save. some (found.0, save)) else none)) [
              | false ↦ λ d. inl d
              | true ↦ λ d.
                  (elim found.1
                      as (λ o. found.1 ≡ o → Got k (o >>= (λ save. some (found.0, save)))) [
                        | none ↦ λ e. inr e
                        | some save ↦ λ e. (
                          at,
                          documented.getcwd-eq n k1 save e ∙ documented.malloc-cwd n k,
                          documented.getcwd-files n k1 ∙ documented.malloc-files n k,
                        )
                      ])
                    refl
            ])
        refl

  -- What `_AT_WRAP_START` leads to, if it does.
  abbrev Started : List ℕ → K → Option (K × List ℕ × Bool) → Type 0
  Started dir k0 none = Exits k0
  Started dir k0 (some (k, save, fchdir_err)) =
      (cwd k ≡ dir) × (save ≡ cwd k0) × (files k ≡ files k0)

  enter-Started :
      (dirfd : ℤ) (k0 : K) (dir : List ℕ) (got : Option (K × List ℕ))
      → ((k : K) → cwd k ≡ cwd k0 → cwd (sys.fchdir dirfd k).0 ≡ dir)
      → (eq_int dirfd sys.at_fdcwd ≡ true → dir ≡ cwd k0)
      → Got k0 got
      → Started dir k0 (got >>= at_wrap_enter sys dirfd)
  unfolding at_wrap_enter
  enter-Started dirfd k0 dir none there here h = h
  enter-Started dirfd k0 dir (some (k, save)) there here h =
      elim (Bool-cases (eq_int dirfd sys.at_fdcwd)) [
        | inl d ↦ rw d (h.0 ∙ sym (here d), h.1, h.2)
        | inr d ↦ rw d (there k h.0, h.1, documented.fchdir-files dirfd k ∙ h.2)
      ]

  call-Acts :
      (dirfd : ℤ) (call : K → K × ℤ) (k0 : K) (dir : List ℕ) (m : Option (K × List ℕ × Bool))
      → ((k : K) → cwd (call k).0 ≡ cwd k)
      → ((k : K) → (sys.chdir (cwd k0) k).1 ≡ pos 0)
      → (eq_int dirfd sys.at_fdcwd ≡ true → dir ≡ cwd k0)
      → Started dir k0 m
      → Acts call dir k0 (m >>= at_wrap_call sys dirfd call)
  unfolding at_wrap_call at_wrap_end
  call-Acts dirfd call k0 dir none keeps back here h = h
  call-Acts dirfd call k0 dir (some (k, save, b)) keeps back here h =
      elim (Bool-cases (eq_int dirfd sys.at_fdcwd)) [
        | inl d ↦ rw d (k, h.0, h.2, refl, refl, keeps k ∙ h.0 ∙ here d)
        | inr d ↦
            rw (d, h.1)
              (
                k,
                h.0,
                h.2,
                refl,
                documented.chdir-files (cwd k0) (call k).0,
                documented.chdir-cwd (cwd k0) (call k).0 (back (call k).0),
              )
      ]

  -- If a call leaves the current directory alone and `chdir` succeeds in going back, it is made in
  -- the directory to which `fchdir` leads and the current directory is restored.
  at_wrap-Acts :
      (dirfd : ℤ) (call : K → K × ℤ) (k : K) (dir : List ℕ)
      → ((k1 : K) → cwd (call k1).0 ≡ cwd k1)
      → ((k1 : K) → (sys.chdir (cwd k) k1).1 ≡ pos 0)
      → ((k1 : K) → cwd k1 ≡ cwd k → cwd (sys.fchdir dirfd k1).0 ≡ dir)
      → (eq_int dirfd sys.at_fdcwd ≡ true → dir ≡ cwd k)
      → Acts call dir k (at_wrap sys dirfd call k)
  unfolding at_wrap at_wrap_start
  at_wrap-Acts dirfd call k dir keeps back there here =
      call-Acts dirfd call k dir (at_wrap_start sys dirfd k) keeps back here
        (enter-Started dirfd k dir (xgetcwd sys k) there here (xgetcwd-Got k))

  either :
      (b : Bool) (f g : K → K × ℤ)
      → ((k : K) → cwd (f k).0 ≡ cwd k)
      → ((k : K) → cwd (g k).0 ≡ cwd k)
      → (k : K) → cwd ((if b then f else g) k).0 ≡ cwd k
  either true f g x y = x
  either false f g x y = y

  -- What the wrapped calls leave alone: the current directory.
  pub record Leaves : Type 0 where
    pub open_file-cwd : (p : List ℕ) (a : ℕ) (k : K) → cwd (sys.open_file p a k).0 ≡ cwd k
    pub stat-cwd : (p : List ℕ) (a : ℕ) (k : K) → cwd (sys.stat p a k).0 ≡ cwd k
    pub lstat-cwd : (p : List ℕ) (a : ℕ) (k : K) → cwd (sys.lstat p a k).0 ≡ cwd k
    pub chmod-cwd : (p : List ℕ) (a : ℕ) (k : K) → cwd (sys.chmod p a k).0 ≡ cwd k
    pub access-cwd : (p : List ℕ) (a : ℕ) (k : K) → cwd (sys.access p a k).0 ≡ cwd k
    pub mkdir-cwd : (p : List ℕ) (a : ℕ) (k : K) → cwd (sys.mkdir p a k).0 ≡ cwd k
    pub readlink-cwd : (p : List ℕ) (a n : ℕ) (k : K) → cwd (sys.readlink p a n k).0 ≡ cwd k
    pub rmdir-cwd : (p : List ℕ) (k : K) → cwd (sys.rmdir p k).0 ≡ cwd k
    pub unlink-cwd : (p : List ℕ) (k : K) → cwd (sys.unlink p k).0 ≡ cwd k
    pub opendir-cwd : (p : List ℕ) (k : K) → cwd (sys.opendir p k).0 ≡ cwd k
    pub chown-cwd : (p : List ℕ) (a b : ℕ) (k : K) → cwd (sys.chown p a b k).0 ≡ cwd k
    pub symlink-cwd : (p q : List ℕ) (k : K) → cwd (sys.symlink p q k).0 ≡ cwd k

  module _ (leaves : Leaves) (dirfd : ℤ) (k : K)
      (back : (k1 : K) → (sys.chdir (cwd k) k1).1 ≡ pos 0) where
    -- If the system is as documented, the calls leave the current directory alone, going back to it
    -- succeeds, and `dirfd` is AT_FDCWD and `dir` the current directory or `fchdir` leads from there
    -- to `dir`, then each call is made in `dir` on the files as they were, its result is
    -- returned, the files afterwards are those that it left, and the
    -- current directory is what it was; or the process exits, for want of memory or of the current
    -- directory's path.
    pub at_calls-Acts :
        (dir path other : List ℕ) (a b : ℕ)
        → ((k1 : K) → cwd k1 ≡ cwd k → cwd (sys.fchdir dirfd k1).0 ≡ dir)
        → (eq_int dirfd sys.at_fdcwd ≡ true → dir ≡ cwd k)
        → Acts (sys.open_file path a) dir k (openat sys dirfd path a k)
          × Acts
              (if sys.symlink_nofollow b then sys.lstat path a else sys.stat path a)
              dir
              k
              (fstatat sys dirfd path a b k)
          × Acts (sys.chmod path a) dir k (fchmodat sys dirfd path a b k)
          × Acts (sys.readlink path a b) dir k (readlinkat sys dirfd path a b k)
          × Acts
              (if sys.removedir a then sys.rmdir path else sys.unlink path)
              dir
              k
              (unlinkat sys dirfd path a k)
          × Acts (sys.access path a) dir k (faccessat sys dirfd path a b k)
          × Acts (sys.opendir (46 ∷ [])) dir k (fdopendir sys dirfd k)
          × Acts (sys.mkdir path a) dir k (mkdirat sys dirfd path a k)
          × Acts (sys.chown path a b) dir k (fchownat sys dirfd path a b b k)
          × Acts (sys.symlink other path) dir k (symlinkat sys other dirfd path k)
    unfolding openat fstatat fchmodat readlinkat unlinkat faccessat fdopendir mkdirat fchownat
        symlinkat
    at_calls-Acts dir path other a b there here = (
      at_wrap-Acts dirfd (sys.open_file path a) k dir (leaves.open_file-cwd path a) back there here,
      at_wrap-Acts dirfd _ k dir
          (either (sys.symlink_nofollow b) (sys.lstat path a) (sys.stat path a)
            (leaves.lstat-cwd path a) (leaves.stat-cwd path a))
          back there here,
      at_wrap-Acts dirfd (sys.chmod path a) k dir (leaves.chmod-cwd path a) back there here,
      at_wrap-Acts dirfd (sys.readlink path a b) k dir (leaves.readlink-cwd path a b) back there
          here,
      at_wrap-Acts dirfd _ k dir
          (either (sys.removedir a) (sys.rmdir path) (sys.unlink path) (leaves.rmdir-cwd path)
            (leaves.unlink-cwd path))
          back there here,
      at_wrap-Acts dirfd (sys.access path a) k dir (leaves.access-cwd path a) back there here,
      at_wrap-Acts dirfd (sys.opendir (46 ∷ [])) k dir (leaves.opendir-cwd (46 ∷ [])) back there
          here,
      at_wrap-Acts dirfd (sys.mkdir path a) k dir (leaves.mkdir-cwd path a) back there here,
      at_wrap-Acts dirfd (sys.chown path a b) k dir (leaves.chown-cwd path a b) back there here,
      at_wrap-Acts dirfd (sys.symlink other path) k dir (leaves.symlink-cwd other path) back there
          here,
    )

    -- On a descriptor that `fchdir` refuses, `fdopendir` still opens a directory, the current one,
    -- and returns what that gives, under the same conditions on the system.
    pub fdopendir-refused :
        ((k1 : K) → (sys.fchdir dirfd k1).1 ≡ negsuc 0)
        → Acts (sys.opendir (46 ∷ [])) (cwd k) k (fdopendir sys dirfd k)
    unfolding fdopendir
    fdopendir-refused refused =
        at_wrap-Acts dirfd (sys.opendir (46 ∷ [])) k (cwd k) (leaves.opendir-cwd (46 ∷ [])) back
          (λ k1 e. documented.fchdir-cwd dirfd k1 (refused k1) ∙ e) (λ _. refl)
