-- ===== src/Spawn/Requests.antt =====
-- ports/nacl-spawn/nacl_spawn.cc: the requests that start processes and wait for them, from
-- `spawnve_impl` to `nacl_spawn_vfork_exit`.
pub mod Calls
pub mod Status
pub mod Vfork
pub mod Ends
mod Examples
use webports.Prelude.{
  ℕ, zero, suc, ◌+◌, ◌-◌, ◌*◌, ◌%◌, ℤ, pos, negsuc, eq_int, is_negative, Bool, true, false, List,
  [], ◌∷◌, Option, none, some, if◌then◌else◌, Text, codes,
}
use webports.Spawn.Var.{
  PpVar, int32, Pepper, var_release, dict_create, dict_get, dict_set, dict_setstring, dict_setint,
  dict_getint, dict_getint_release, dict_has_key, array_create, array_setstring,
}
use webports.Spawn.Pipes.{OldPipe}
use webports.Spawn.Script.{Shell}
use webports.Spawn.Nmf.{Added, add_nmf_to_request}
use webports.Spawn.Fds.{
  Table, Cloned, cloned, clone_failed, clone_file_descriptors, Descriptors, stash_file_descriptors,
  unstash_file_descriptors,
}

-- What the calls use: the Pepper interface, the reply to a request, the files, the descriptors and
-- the print of their entries, `environ`, and the number that the union of a variable of another type
-- holds.
pub record Browser (K : Type 0) : Type 0 where
  pub pp : Pepper K
  pub send_request : PpVar → K → K × PpVar
  pub shell : Shell
  pub table : K → Table
  pub print : ℕ → OldPipe → Text
  pub calls : Descriptors K
  pub environ : List Text
  pub other_bits : PpVar → ℤ
  pub fuel : ℕ

-- `P_WAIT`, `P_NOWAIT`, `P_NOWAITO`, `P_OVERLAY` or any other number.
pub data Mode : Type 0 where
  wait no_wait no_wait_o overlay other_mode : Mode

-- `vforking` and `vfork_pid`.
pub record Process : Type 0 where
  pub vforking : Bool
  pub vfork_pid : ℤ

-- How a call ends: it returns, or returns a status that was never written; it jumps to where
-- `vfork` was called, ends the process, or is replaced by the new process; an assertion fails or a
-- read is outside its buffer.
pub data Spawned (K : Type 0) : Type 0 where
  returned : ℤ → Process → K → Spawned K
  unwritten : Process → K → Spawned K
  jumped : Process → K → Spawned K
  exited : ℤ → K → Spawned K
  replaced : K → Spawned K
  failed_assert : Spawned K
  overrun : Spawned K
  no_fuel : Spawned K

-- `EINVAL`, `ENOSYS` and `EFAULT`.
abbrev pub einval : ℕ
einval = 22

abbrev pub enosys : ℕ
enosys = 38

-- `raw & 0xff` of an `int`, in two's complement.
abbrev pub low_byte : ℤ → ℕ
low_byte (pos n) = n % 256
low_byte (negsuc n) = 255 - n % 256

module _ {K : Type 0} (b : Browser K) where
  open b use {pp, send_request, shell}

  -- `argv` or `envp`, copied to an array from an index on.
  unfoldable pub set_strings : PpVar → ℕ → List Text → K → K
  unfolding array_setstring
  set_strings arr i [] k = k
  set_strings arr i (s ∷ strings) k = set_strings arr (i + 1) strings (array_setstring pp arr i s k)

  unfoldable pub set_mode : Bool → PpVar → K → K
  unfolding dict_setstring
  set_mode false req_var k = k
  set_mode true req_var k = dict_setstring pp req_var (codes "mode") (codes "overlay") k

  -- What `spawnve_impl` makes of the reply: only a process that is not replaced has one.
  unfoldable pub with_pid : Bool → Process → K × Option ℤ → Spawned K
  with_pid true p (k, pid) = replaced k
  with_pid false p (k, none) = failed_assert
  with_pid false p (k, some pid) = returned pid p k

  unfoldable pub after_nmf : Bool → Process → PpVar → Added K → Spawned K
  unfolding with_pid dict_getint_release
  after_nmf over p req_var (Added.added k) =
      let (k1, reply) = send_request req_var k in
      with_pid over p (dict_getint_release pp reply (codes "pid") k1)
  after_nmf over p req_var (Added.refused errno k) = returned (negsuc 0) p (pp.set_errno 2 k)
  after_nmf over p req_var Added.overrun = overrun
  after_nmf over p req_var Added.failed_assert = failed_assert
  after_nmf over p req_var Added.no_fuel = no_fuel

  unfoldable pub after_clone : Bool → Process → Text → PpVar → PpVar → Cloned K → Spawned K
  unfolding after_nmf dict_set dict_setstring add_nmf_to_request
  after_clone over p path req_var envs_var (clone_failed k) = returned (negsuc 0) p k
  after_clone over p path req_var envs_var (cloned k) =
      let k1 = dict_set pp req_var (codes "envs") envs_var k in
      let k2 = dict_setstring pp req_var (codes "cwd") shell.cwd k1 in
      after_nmf over p req_var (add_nmf_to_request pp shell b.fuel path req_var k2)

  -- The request of `spawnve_impl`, in the normal case; the Boolean says whether the mode is
  -- `P_OVERLAY`.
  unfoldable pub spawn_request : Bool → Process → Text → List Text → List Text → K → Spawned K
  unfolding dict_create dict_setstring set_mode array_create set_strings dict_set after_clone
  spawn_request over p path argv envp k =
      let (k1, req_var) = dict_create pp k in
      let k2 = dict_setstring pp req_var (codes "command") (codes "nacl_spawn") k1 in
      let (k3, args_var) = array_create pp (set_mode over req_var k2) in
      let k4 = dict_set pp req_var (codes "args") args_var (set_strings args_var 0 argv k3) in
      let (k5, envs_var) = array_create pp k4 in
      let k6 = set_strings envs_var 0 envp k5 in
      after_clone over p path req_var envs_var
        (clone_file_descriptors pp b.print (b.table k) envs_var k6)

  unfoldable pub as_int : PpVar → ℤ
  as_int (int32 n) = n
  as_int other = b.other_bits other

  -- The status that is written, from the entry of the reply, if there is one.
  unfoldable pub status_of : Option PpVar → Option ℤ
  unfolding as_int
  status_of none = none
  status_of (some status_var) = some (pos (low_byte (as_int status_var) * 256))

  -- Without a process, the assertion in `nspawn_dict_getint` has failed, and no status is written.
  unfoldable pub after_pid : Option ℤ → Option PpVar → Option ℤ
  unfolding status_of
  after_pid none status_var = none
  after_pid (some result_pid) status_var = status_of status_var

  -- `waitpid_impl`: the process, `none` where an assertion failed, and the status that it writes.
  unfoldable pub waitpid_impl : ℤ → ℤ → K → K × Option ℤ × Option ℤ
  unfolding dict_create dict_setstring dict_setint dict_getint dict_has_key var_release after_pid
  waitpid_impl pid options k =
      let (k1, req_var) = dict_create pp k in
      let k2 = dict_setstring pp req_var (codes "command") (codes "nacl_wait") k1 in
      let k3 = dict_setint pp req_var (codes "pid") pid k2 in
      let k4 = dict_setint pp req_var (codes "options") options k3 in
      let (k5, result_var) = send_request req_var k4 in
      let (k6, result_pid) = dict_getint pp result_var (codes "pid") k5 in
      let (k7, status_var) = dict_has_key pp result_var (codes "status") k6 in
      (var_release pp result_var k7, result_pid, after_pid result_pid status_var)

  -- What `P_WAIT` makes of the end of the process.
  unfoldable pub with_status : Process → K × Option ℤ × Option ℤ → Spawned K
  with_status p (k, none, status) = failed_assert
  with_status p (k, some (negsuc n), status) = returned (negsuc 0) p k
  with_status p (k, some (pos n), none) = unwritten p k
  with_status p (k, some (pos n), some status) = returned status p k

  unfoldable pub wait_for : Spawned K → Spawned K
  unfolding with_status waitpid_impl
  wait_for (returned (negsuc n) p k) = returned (negsuc 0) p k
  wait_for (returned (pos pid) p k) = with_status p (waitpid_impl (pos pid) (pos 0) k)
  wait_for other = other

  -- The jump back to `vfork`, with the process in `vfork_pid`.
  unfoldable pub jump_with : Spawned K → Spawned K
  jump_with (returned pid p k) = jumped (record p { vfork_pid = pid }) k
  jump_with other = other

  unfoldable pub environ_or : Option (List Text) → List Text
  environ_or none = b.environ
  environ_or (some envp) = envp

  -- `spawnve_impl` behind its first test, by the mode.
  unfoldable pub spawn_mode : Mode → Process → Text → List Text → Option (List Text) → K → Spawned K
  unfolding spawn_request wait_for jump_with environ_or
  spawn_mode wait p path argv envp k =
      wait_for (spawn_request false p path argv (environ_or envp) k)
  spawn_mode overlay p path argv envp k =
      if p.vforking
      then jump_with (spawn_request false p path argv (environ_or envp) k)
      else spawn_request true p path argv (environ_or envp) k
  spawn_mode other_mode p path argv envp k = returned (negsuc 0) p (pp.set_errno einval k)
  spawn_mode other p path argv envp k = spawn_request false p path argv (environ_or envp) k

  -- `spawnve_impl`; `none` is a null pointer, and an empty `argv` one that starts with it.
  unfoldable pub spawnve_impl :
      Mode → Process → Option Text → List Text → Option (List Text) → K → Spawned K
  unfolding spawn_mode
  spawnve_impl mode p (some path) (arg ∷ argv) envp k = spawn_mode mode p path (arg ∷ argv) envp k
  spawnve_impl mode p path argv envp k = returned (negsuc 0) p (pp.set_errno einval k)
