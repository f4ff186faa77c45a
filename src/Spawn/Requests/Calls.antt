-- ===== src/Spawn/Requests/Calls.antt =====
-- ports/nacl-spawn/nacl_spawn.cc: the calls that pass a request on, and `vfork`.
use webports.Prelude.{
  ℕ, ◌+◌, ℤ, pos, negsuc, eq_int, Bool, true, false, List, [], ◌∷◌, Option, none, some,
  if◌then◌else◌, Text, codes,
}
use webports.Spawn.Var.{PpVar, dict_create, dict_setstring, dict_setint, dict_getint_release}
use webports.Spawn.Fds.{stash_file_descriptors, unstash_file_descriptors}
use webports.Spawn.Requests.{
  Browser, no_wait, overlay, Process, Spawned, returned, jumped, exited, failed_assert, enosys,
  spawnve_impl,
}

-- The process identifier of the IRT: its interface is not there, gives it, or fails.
pub data IrtGetpid : Type 0 where
  absent : IrtGetpid
  gives : ℤ → IrtGetpid
  fails : ℕ → IrtGetpid

-- What `posix_spawn` returns, and the process that it writes.
pub data Posix (K : Type 0) : Type 0 where
  no_process : ℤ → Process → K → Posix K
  process : ℤ → Process → K → Posix K
  no_return : Spawned K → Posix K

module _ {K : Type 0} (b : Browser K) where
  open b use {pp, send_request}

  unfoldable pub set_fields : PpVar → List (Text × ℤ) → K → K
  unfolding dict_setint
  set_fields req_var [] k = k
  set_fields req_var ((key, v) ∷ fields) k =
      set_fields req_var fields (dict_setint pp req_var key v k)

  -- A request of a command with numbers, and the number that the reply has for a key.
  unfoldable pub ask : Text → List (Text × ℤ) → Text → K → K × Option ℤ
  unfolding dict_create dict_setstring set_fields dict_getint_release
  ask command fields key k =
      let (k1, req_var) = dict_create pp k in
      let k2 = dict_setstring pp req_var (codes "command") command k1 in
      let (k3, reply) = send_request req_var (set_fields req_var fields k2) in
      dict_getint_release pp reply key k3

  unfoldable pub getpgid : ℤ → K → K × Option ℤ
  unfolding ask
  getpgid pid k = ask (codes "nacl_getpgid") ((codes "pid", pid) ∷ []) (codes "pgid") k

  unfoldable pub getpgrp : K → K × Option ℤ
  unfolding getpgid
  getpgrp k = getpgid (pos 0) k

  unfoldable pub setpgid : ℤ → ℤ → K → K × Option ℤ
  unfolding ask
  setpgid pid pgid k =
      ask (codes "nacl_setpgid") ((codes "pid", pid) ∷ (codes "pgid", pgid) ∷ []) (codes "result") k

  unfoldable pub setpgrp : K → K × Option ℤ
  unfolding setpgid
  setpgrp k = setpgid (pos 0) (pos 0) k

  unfoldable pub getsid : ℤ → K → K × Option ℤ
  unfolding ask
  getsid pid k = ask (codes "nacl_getsid") ((codes "pid", pid) ∷ []) (codes "sid") k

  unfoldable pub setsid : K → K × Option ℤ
  unfolding ask
  setsid k = ask (codes "nacl_setsid") [] (codes "sid") k

  unfoldable pub getpid_irt : IrtGetpid → K → K × ℤ
  getpid_irt absent k = (k, pos 1)
  getpid_irt (gives pid) k = (k, pid)
  getpid_irt (fails error) k = (pp.set_errno error k, negsuc 0)

  -- `nspawn_pid` is the first argument.
  unfoldable pub getpid : ℤ → IrtGetpid → K → K × ℤ
  unfolding getpid_irt
  getpid nspawn_pid irt k =
      if eq_int nspawn_pid (negsuc 0) then getpid_irt irt k else (k, nspawn_pid)

  -- `nspawn_ppid` is the first argument.
  unfoldable pub getppid : ℤ → K → K × ℤ
  getppid nspawn_ppid k =
      if eq_int nspawn_ppid (negsuc 0)
      then (pp.set_errno enosys k, nspawn_ppid)
      else (k, nspawn_ppid)

  unfoldable pub posix_result : Spawned K → Posix K
  posix_result (returned (negsuc n) p k) = no_process (negsuc n) p k
  posix_result (returned (pos pid) p k) = process (pos pid) p k
  posix_result other = no_return other

  unfoldable pub posix_spawn : Process → Option Text → List Text → Option (List Text) → K → Posix K
  unfolding spawnve_impl posix_result
  posix_spawn p path argv envp k = posix_result (spawnve_impl b no_wait p path argv envp k)

  -- `execve` and `execvpe`; `execle` and `execlpe` with their arguments collected.
  unfoldable pub execve : Process → Option Text → List Text → Option (List Text) → K → Spawned K
  unfolding spawnve_impl
  execve p filename argv envp k = spawnve_impl b overlay p filename argv envp k

  -- `execv` and `execvp`; `execl` and `execlp` with their arguments collected.
  unfoldable pub execv : Process → Option Text → List Text → K → Spawned K
  unfolding spawnve_impl
  execv p path argv k = spawnve_impl b overlay p path argv (some b.environ) k

  -- `none` is a failed assertion.
  unfoldable pub vfork_before : Process → K → Option (Process × K)
  unfolding stash_file_descriptors
  vfork_before p k =
      if p.vforking
      then none
      else some (record p { vforking = true }, stash_file_descriptors b.calls k)

  -- With what `vfork` returns.
  unfoldable pub vfork_after : Bool → Process → K → Process × K × ℤ
  unfolding unstash_file_descriptors
  vfork_after true p k =
      (record p { vforking = false }, unstash_file_descriptors b.calls k, p.vfork_pid)
  vfork_after false p k = (p, k, pos 0)

  -- A negative result is an error number.
  unfoldable pub dead_pid : Process → K × Option ℤ → Spawned K
  dead_pid p (k, none) = failed_assert
  dead_pid p (k, some (negsuc n)) =
      jumped (record p { vfork_pid = negsuc 0 }) (pp.set_errno (n + 1) k)
  dead_pid p (k, some (pos pid)) = jumped (record p { vfork_pid = pos pid }) k

  unfoldable pub vfork_exit : ℤ → Process → K → Spawned K
  unfolding dead_pid ask
  vfork_exit status p k =
      if p.vforking
      then dead_pid p (ask (codes "nacl_deadpid") ((codes "status", status) ∷ []) (codes "pid") k)
      else exited status k

-- `open` of "/apipe/" with the number, for reading or writing, with the flags, and `close`.
pub record PipeCalls (K : Type 0) : Type 0 where
  pub open_end : ℤ → Bool → ℕ → K → K × ℤ
  pub close : ℤ → K → K

module _ {K : Type 0} (b : Browser K) (c : PipeCalls K) where
  unfoldable pub close_valid : ℤ → K → K
  close_valid (pos fd) k = c.close (pos fd) k
  close_valid (negsuc n) k = k

  -- Both ends, or -1 with the one closed that was opened.
  unfoldable pub with_ends : ℤ → ℤ → K → K × ℤ × Option (ℤ × ℤ)
  unfolding close_valid
  with_ends (pos read_fd) (pos write_fd) k = (k, pos 0, some (pos read_fd, pos write_fd))
  with_ends read_fd write_fd k = (close_valid write_fd (close_valid read_fd k), negsuc 0, none)

  unfoldable pub open_ends : ℕ → ℤ → K → K × ℤ × Option (ℤ × ℤ)
  unfolding with_ends
  open_ends flags id k =
      let (k1, read_fd) = c.open_end id false flags k in
      let (k2, write_fd) = c.open_end id true flags k1 in with_ends read_fd write_fd k2

  unfoldable pub with_pipe_id : ℕ → K × Option ℤ → Option (K × ℤ × Option (ℤ × ℤ))
  unfolding open_ends
  with_pipe_id flags (k, none) = none
  with_pipe_id flags (k, some id) = some (open_ends flags id k)

  -- `nacl_spawn_pipe2` with an array that is not null and flags that pass the assertion; `none` is a
  -- failed assertion.
  unfoldable pub spawn_pipe2 : ℕ → K → Option (K × ℤ × Option (ℤ × ℤ))
  unfolding ask with_pipe_id
  spawn_pipe2 flags k = with_pipe_id flags (ask b (codes "nacl_apipe") [] (codes "pipe_id") k)
