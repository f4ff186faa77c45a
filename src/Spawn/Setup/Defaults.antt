-- ===== src/Spawn/Setup/Defaults.antt =====
-- `nacl_setup_env` of ports/nacl-spawn/nacl_setup_env.c and the variables.
use webports.Prelude.{
  ℕ, suc, pos, eq_int, true, false, not, [], Option, none, some, if◌then◌else◌, Text, codes,
  eq_text, ◌≡◌, ◌≢◌, ◌⊎◌, inl, inr, refl, ap, ◌∙◌, sym, Bool-cases, subst, arith,
}
use webports.Spawn.Pipes.{Restored, restored, failed, exhausted, restore_loop, restore_pipes}
use webports.Spawn.Apipe.{setup_anonymous_pipes}
use webports.Spawn.Setup.{Pids, Host, Setup, ends, failed_assert, no_fuel, or_text, mountfs}
use webports.Spawn.Setup.Start.{
  mount_root, mount_at, set_defaults, make_directories, mount_http, mount_html5, after_pipes,
  set_process, change_dir, set_up_files, nacl_setup_env,
}
use webports.Spawn.Setup.Variables.{
  Variable, home, path, user, logname, default_of, IsHost, variable,
}
use webports.Spawn.Setup.Mounts.{
  Gives, mountfs-Gives, mount_root-value, make_directories-value, mount_http-value,
  mount_html5-value, setup_anonymous_pipes-value,
}
use webports.Spawn.Setup.Inherited.{Keeping, restore_loop-Keeping}

set_defaults-value :
    {K : Type 0} (host : Host K) (x : Variable)
    → IsHost host x
    → (k : K)
    → variable host x (set_defaults host k) ≡ some (or_text (default_of x) (variable host x k))
unfolding set_defaults eq_text
set_defaults-value host home l k = l.setenv _ _ _ ∙ l.setenv _ _ _ ∙ l.setenv _ _ _ ∙ l.setenv _ _ k
set_defaults-value host path l k =
    l.setenv _ _ _
    ∙ l.setenv _ _ _
    ∙ l.setenv _ _ _
    ∙ ap (λ v. some (or_text (codes "/bin") v)) (l.setenv _ _ k)
set_defaults-value host user l k =
    l.setenv _ _ _
    ∙ l.setenv _ _ _
    ∙ ap (λ v. some (or_text (codes "user") v)) (l.setenv _ _ _ ∙ l.setenv _ _ k)
set_defaults-value host logname l k =
    l.setenv _ _ _
    ∙ ap (λ v. some (or_text (codes "user") v)) (l.setenv _ _ _ ∙ l.setenv _ _ _ ∙ l.setenv _ _ k)

set_arch-variable :
    {K : Type 0} (host : Host K) (x : Variable)
    → IsHost host x
    → (arch : Text) (k : K)
    → variable host x
        (host.setenv (codes "NACL_BOOT_ARCH") arch (host.setenv (codes "NACL_ARCH") arch k))
      ≡ variable host x k
unfolding eq_text
set_arch-variable host home l a k = l.setenv _ _ _ ∙ l.setenv _ _ k
set_arch-variable host path l a k = l.setenv _ _ _ ∙ l.setenv _ _ k
set_arch-variable host user l a k = l.setenv _ _ _ ∙ l.setenv _ _ k
set_arch-variable host logname l a k = l.setenv _ _ _ ∙ l.setenv _ _ k

pos-nonzero : pos 1 ≢ pos 0
pos-nonzero q = let e : true ≡ false = sym (ap (λ z. eq_int z (pos 0)) q) in cc

-- A result of 0 leaves the variable with its value before, or with its default.
abbrev pub Sets : {K : Type 0} → Host K → Variable → Option Text → Setup K → Type 0
Sets host x before (ends c ids t) =
    ((c ≡ pos 0) × (variable host x t ≡ some (or_text (default_of x) before))) ⊎ (c ≢ pos 0)
Sets host x before failed_assert = Unit
Sets host x before no_fuel = ⊥

module _ {K : Type 0} (host : Host K) (x : Variable) (l : IsHost host x) where
  open host use {pp, library}

  abbrev value : K → Option Text
  value k = variable host x k

  after_pipes-Sets :
      (before : Option Text) (ids : Pids) (k : K) (r : Restored K)
      → value k ≡ some (or_text (default_of x) before)
      → Keeping host x l k r
      → Sets host x before (after_pipes host ids r)
  unfolding after_pipes
  after_pipes-Sets before ids k (restored old t) e g = inl (refl, g ∙ e)
  after_pipes-Sets before ids k (failed old t) e g = inr pos-nonzero
  after_pipes-Sets before ids k exhausted e g = absurd g

  set_process-Sets :
      (before : Option Text) (fuel : ℕ) (ids : Pids) (k : K)
      → host.fuel ≡ suc fuel
      → ((t : K) → library.setup fuel t ≡ none)
      → value k ≡ some (or_text (default_of x) before)
      → Sets host x before (set_process host k)
  unfolding set_process restore_pipes
  set_process-Sets before fuel ids k enough no_entry e =
      let k1 = host.setenv (codes "NACL_ARCH") host.arch k in
      let k2 = host.setlocale (host.setenv (codes "NACL_BOOT_ARCH") host.arch k1) in
      let kept : value k2 ≡ value k = l.setlocale _ ∙ set_arch-variable host x l host.arch k in
      after_pipes-Sets before _ k2 (restore_loop library host.fuel 0 [] k2) (kept ∙ e) (
        subst (λ n. Keeping host x l k2 (restore_loop library n 0 [] k2)) (sym enough)
          (restore_loop-Keeping host x l fuel 0 [] k2
            (λ t. subst (λ n. library.setup n t ≡ none) (omega arith) (no_entry t))))

  change_dir-Sets :
      (before : Option Text) (fuel : ℕ) (ids : Pids) (pwd : Option Text) (k : K)
      → host.fuel ≡ suc fuel
      → ((t : K) → library.setup fuel t ≡ none)
      → value k ≡ some (or_text (default_of x) before)
      → Sets host x before (change_dir host ids pwd k)
  unfolding change_dir
  change_dir-Sets before fuel ids none k enough no_entry e =
      set_process-Sets before fuel ids k enough no_entry e
  change_dir-Sets before fuel ids (some pwd) k enough no_entry e =
      let r = host.chdir pwd k in
      elim (eq_int r.1 (pos 0))
        as (λ b. Sets host x before (if b then set_process host r.0 else ends (pos 1) ids r.0)) [
          | true ↦ set_process-Sets before fuel ids r.0 enough no_entry (l.chdir pwd k ∙ e)
          | false ↦ inr pos-nonzero
        ]

  set_up_files-Sets :
      (fuel : ℕ) (html5_root : Option Text) (ids : Pids) (k : K)
      → host.fuel ≡ suc fuel
      → ((t : K) → library.setup fuel t ≡ none)
      → Sets host x (value k) (set_up_files host html5_root ids k)
  unfolding set_up_files
  set_up_files-Sets fuel html5_root ids k enough no_entry =
      let k1 = set_defaults host k in
      let home = or_text [] (library.getenv (codes "HOME") k1) in
      let k2 = mount_html5 host html5_root home (mount_http host (make_directories host home k1)) in
      let k3 =
        (mount_at host (codes "/") (codes "/tmp") (codes "html5fs") (some (codes "type=TEMPORARY"))
          k2).0 in
      let set : value k3 ≡ some (or_text (default_of x) (value k)) =
        l.mount _ _
        ∙ mount_html5-value host x l _ _ _
        ∙ mount_http-value host x l _
        ∙ make_directories-value host x l _ _
        ∙ set_defaults-value host x l k in
      elim (mountfs host k3)
          as (λ r.
            Gives host x l k3 r
            → Sets host x (value k) (elim r [
              | none ↦ failed_assert
              | some k4 ↦ change_dir host ids (library.getenv (codes "PWD") k4) k4
            ])) [
              | none ↦ λ g. tt
              | some k4 ↦ λ g.
                  change_dir-Sets (value k) fuel ids (library.getenv (codes "PWD") k4) k4 enough
                    no_entry (g ∙ set)
            ]
        (mountfs-Gives host x l k3)

  -- The part behind the test of the instance.
  after_instance :
      (fuel : ℕ) (ids : Pids) (root : Option Text) (k u : K)
      → host.fuel ≡ suc fuel
      → ((t : K) → library.setup fuel t ≡ none)
      → value u ≡ value k
      → (let m = mount_root host root u in
          let a = setup_anonymous_pipes host.pipe_host m.0 in
          Sets host x (value k) (
            if not (eq_int m.1 (pos 0))
            then ends (pos 1) ids m.0
            else if eq_int (pos a.1) (pos 0)
            then set_up_files host root ids a.0
            else ends (pos a.1) ids a.0))
  after_instance fuel ids root k u enough no_entry e =
      let m = mount_root host root u in
      let a = setup_anonymous_pipes host.pipe_host m.0 in
      let kept : value a.0 ≡ value k =
        setup_anonymous_pipes-value host x l m.0 ∙ mount_root-value host x l root u ∙ e in
      elim (eq_int m.1 (pos 0))
        as (λ b. Sets host x (value k) (
          if not b
          then ends (pos 1) ids m.0
          else if eq_int (pos a.1) (pos 0)
          then set_up_files host root ids a.0
          else ends (pos a.1) ids a.0)) [
            | false ↦ inr pos-nonzero
            | true ↦ elim (Bool-cases (eq_int (pos a.1) (pos 0))) [
              | inl d ↦
                  subst
                    (λ b.
                      Sets host x (value k)
                        (if b then set_up_files host root ids a.0 else ends (pos a.1) ids a.0))
                    (sym d)
                    (subst (λ v. Sets host x v (set_up_files host root ids a.0)) kept
                      (set_up_files-Sets fuel root ids a.0 enough no_entry))
              | inr d ↦
                  subst
                    (λ b.
                      Sets host x (value k)
                        (if b then set_up_files host root ids a.0 else ends (pos a.1) ids a.0))
                    (sym d)
                    (inr
                      (λ q. let yes : true ≡ false = sym (ap (λ z. eq_int z (pos 0)) q) ∙ d in cc))
            ]
          ]

-- If `setenv` without override only sets a missing variable and no other call changes HOME, PATH,
-- USER or LOGNAME, and there are fewer entries of pipes than the fuel, then `nacl_setup_env` under a
-- browser ends, by an assertion on the reply of the browser or with a number. If that is 0,
-- each of these variables has the value that it had before, or its default if it had none.
pub nacl_setup_env-Sets :
    {K : Type 0} (host : Host K) (x : Variable) (fuel : ℕ) (ids : Pids) (k : K)
    → (l : IsHost host x) → host.has_instance ≡ true
    → host.fuel ≡ suc fuel
    → ((t : K) → host.library.setup fuel t ≡ none)
    → Sets host x (variable host x k) (nacl_setup_env host ids k)
unfolding nacl_setup_env
nacl_setup_env-Sets host x fuel ids k l instance_given enough no_entry =
    let u = (host.umount (codes "/") k).0 in
    let root = host.library.getenv (codes "NACL_HTML5_ROOT") u in
    let m = mount_root host root u in
    let a = setup_anonymous_pipes host.pipe_host m.0 in
    subst
      (λ i. Sets host x (variable host x k) (
        if not i
        then ends (pos 0) ids k
        else if not (eq_int m.1 (pos 0))
        then ends (pos 1) ids m.0
        else if eq_int (pos a.1) (pos 0)
        then set_up_files host root ids a.0
        else ends (pos a.1) ids a.0))
      (sym instance_given)
      (after_instance host x l fuel ids root k u enough no_entry (l.umount _ k))
