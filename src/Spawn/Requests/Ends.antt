-- ===== src/Spawn/Requests/Ends.antt =====
-- `spawnve_impl` of ports/nacl-spawn/nacl_spawn.cc ends.
use webports.Prelude.{
  ◌+◌, ℤ, pos, negsuc, Bool, true, false, List, [], ◌∷◌, length, Option, none, some, Text, codes,
  ◌≡◌, ◌≢◌, refl, subst, sym, if◌then◌else◌,
}
use webports.Spawn.Var.{
  PpVar, dict_create, dict_set, dict_setstring, array_create, dict_getint_release,
}
use webports.Spawn.Libraries.Finds.{Lists}
use webports.Spawn.Nmf.{Added, add_nmf_to_request}
use webports.Spawn.Nmf.Ends.{add_nmf_to_request_ends}
use webports.Spawn.Fds.{Cloned, cloned, clone_failed, clone_file_descriptors}
use webports.Spawn.Requests.{
  Browser, Mode, wait, no_wait, no_wait_o, overlay, other_mode, Process, Spawned, returned,
  unwritten, jumped, exited, replaced, failed_assert, overrun, no_fuel, set_strings, set_mode,
  with_pid, after_nmf, after_clone, spawn_request, waitpid_impl, with_status, wait_for, jump_with,
  environ_or, spawn_mode, spawnve_impl,
}

module _ {K : Type 0} (b : Browser K) where
  with_pid_ends : (over : Bool) (p : Process) (r : K × Option ℤ) → with_pid b over p r ≢ no_fuel
  unfolding with_pid
  with_pid_ends true p r = λ q. cc
  with_pid_ends false p (k, none) = λ q. cc
  with_pid_ends false p (k, some pid) = λ q. cc

  after_nmf_ends :
      (over : Bool) (p : Process) (req : PpVar) (a : Added K)
      → a ≢ Added.no_fuel
      → after_nmf b over p req a ≢ no_fuel
  unfolding after_nmf
  after_nmf_ends over p req (Added.added k) h =
      with_pid_ends over p
        (dict_getint_release b.pp (b.send_request req k).1 (codes "pid") (b.send_request req k).0)
  after_nmf_ends over p req (Added.refused errno k) h = λ q. cc
  after_nmf_ends over p req Added.overrun h = λ q. cc
  after_nmf_ends over p req Added.failed_assert h = λ q. cc
  after_nmf_ends over p req Added.no_fuel h = absurd (h refl)

  with_status_ends : (p : Process) (r : K × Option ℤ × Option ℤ) → with_status b p r ≢ no_fuel
  unfolding with_status
  with_status_ends p (k, none, status) = λ q. cc
  with_status_ends p (k, some (negsuc n), status) = λ q. cc
  with_status_ends p (k, some (pos n), none) = λ q. cc
  with_status_ends p (k, some (pos n), some status) = λ q. cc

  wait_for_ends : (s : Spawned K) → s ≢ no_fuel → wait_for b s ≢ no_fuel
  unfolding wait_for
  wait_for_ends (returned (negsuc n) p k) h = λ q. cc
  wait_for_ends (returned (pos pid) p k) h = with_status_ends p (waitpid_impl b (pos pid) (pos 0) k)
  wait_for_ends (unwritten p k) h = h
  wait_for_ends (jumped p k) h = h
  wait_for_ends (exited n k) h = h
  wait_for_ends (replaced k) h = h
  wait_for_ends failed_assert h = h
  wait_for_ends overrun h = h
  wait_for_ends no_fuel h = h

  jump_with_ends : (s : Spawned K) → s ≢ no_fuel → jump_with b s ≢ no_fuel
  unfolding jump_with
  jump_with_ends (returned pid p k) h = λ q. cc
  jump_with_ends (unwritten p k) h = h
  jump_with_ends (jumped p k) h = h
  jump_with_ends (exited n k) h = h
  jump_with_ends (replaced k) h = h
  jump_with_ends failed_assert h = h
  jump_with_ends overrun h = h
  jump_with_ends no_fuel h = h

  module _ (files : List Text) (listed : Lists b.shell.disk files)
      (enough : b.fuel ≡ length files + 2) where
    after_clone_ends :
        (over : Bool) (p : Process) (path : Text) (req envs : PpVar) (c : Cloned K)
        → after_clone b over p path req envs c ≢ no_fuel
    unfolding after_clone
    after_clone_ends over p path req envs (clone_failed k) = λ q. cc
    after_clone_ends over p path req envs (cloned k) =
        let k1 = dict_set b.pp req (codes "envs") envs k in
        let k2 = dict_setstring b.pp req (codes "cwd") b.shell.cwd k1 in
        after_nmf_ends over p req (add_nmf_to_request b.pp b.shell b.fuel path req k2) (
          subst (λ n. add_nmf_to_request b.pp b.shell n path req k2 ≢ Added.no_fuel) (sym enough)
            (add_nmf_to_request_ends b.pp b.shell files listed req path k2))

    spawn_request_ends :
        (over : Bool) (p : Process) (path : Text) (argv envp : List Text) (k : K)
        → spawn_request b over p path argv envp k ≢ no_fuel
    unfolding spawn_request
    spawn_request_ends over p path argv envp k =
        let k1 = (dict_create b.pp k).0 in
        let req = (dict_create b.pp k).1 in
        let k2 = dict_setstring b.pp req (codes "command") (codes "nacl_spawn") k1 in
        let made = array_create b.pp (set_mode b over req k2) in
        let k4 = dict_set b.pp req (codes "args") made.1 (set_strings b made.1 0 argv made.0) in
        let envs = (array_create b.pp k4).1 in
        let k6 = set_strings b envs 0 envp (array_create b.pp k4).0 in
        after_clone_ends over p path req envs
          (clone_file_descriptors b.pp b.print (b.table k) envs k6)

    spawn_mode_ends :
        (mode : Mode) (p : Process) (path : Text) (argv : List Text) (envp : Option (List Text))
        (k : K)
        → spawn_mode b mode p path argv envp k ≢ no_fuel
    unfolding spawn_mode
    spawn_mode_ends wait p path argv envp k =
        wait_for_ends (spawn_request b false p path argv (environ_or b envp) k)
          (spawn_request_ends false p path argv (environ_or b envp) k)
    spawn_mode_ends no_wait p path argv envp k =
        spawn_request_ends false p path argv (environ_or b envp) k
    spawn_mode_ends no_wait_o p path argv envp k =
        spawn_request_ends false p path argv (environ_or b envp) k
    spawn_mode_ends overlay p path argv envp k =
        elim p.vforking
          as (λ t.
            (if t
              then jump_with b (spawn_request b false p path argv (environ_or b envp) k)
              else spawn_request b true p path argv (environ_or b envp) k)
            ≢ no_fuel) [
              | true ↦
                  jump_with_ends (spawn_request b false p path argv (environ_or b envp) k)
                    (spawn_request_ends false p path argv (environ_or b envp) k)
              | false ↦ spawn_request_ends true p path argv (environ_or b envp) k
            ]
    spawn_mode_ends other_mode p path argv envp k = λ q. cc

    -- Each call that starts a process ends, in every mode and for every program, on a file system
    -- with finitely many files that can be read; the fuel is their number and two. The reply to a
    -- request is taken to come.
    pub spawnve_impl_ends :
        (mode : Mode) (p : Process) (path : Option Text) (argv : List Text)
        (envp : Option (List Text)) (k : K)
        → spawnve_impl b mode p path argv envp k ≢ no_fuel
    unfolding spawnve_impl
    spawnve_impl_ends mode p (some path) (arg ∷ argv) envp k =
        spawn_mode_ends mode p path (arg ∷ argv) envp k
    spawnve_impl_ends mode p (some path) [] envp k = λ q. cc
    spawnve_impl_ends mode p none [] envp k = λ q. cc
    spawnve_impl_ends mode p none (arg ∷ argv) envp k = λ q. cc
