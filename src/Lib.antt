-- ===== src/Lib.antt =====
-- The code of webports that is the project's own: a package of coroutine threads, functions of the C
-- library that the Native Client's lacks, and the start of a process in the browser. Paths are from
-- the repository's root.
--
-- ports/dreadthread, threads on the stack of one process (`Dread`):
--   dread_chain.c                   Dread.Chain: the circular chains, on a heap of `prev` and `next`
--                                   fields. Dread.Chain.Ring, Unlink and Frame relate them to lists.
--   dreadthread.h, the state of     Dread.World: the structures and the file-scope variables. Chains
--   dread.c                         are lists there, as Dread.Chain justifies.
--   dread.c, dthr_csw,              Dread.Switch: `csw`, `csw_exit`, `thread_yield`, `thread_sleep`
--   dthr_thread_yield, _sleep       and `thread_sleep_leave`.
--   dread.c, dthr_semaphore_...     Dread.Semaphore.
--   dread.c, dthr_event_...         Dread.Event.
--   dread.c, dthr_thread_...        Dread.Thread.
--   dread.c, the launcher           Dread.Launch: `find_free_stack`, `launch_step`,
--                                   `new_topmost_thread`, `base_step`, `this_thread`.
--   dread.c, dthr_init and          Dread.Machine, with `step`, in which the current thread makes its
--   dthr_thread_multithread         next call. A context (`jmp_buf`) is the rest of a run, `Prog`, and
--                                   longjmp goes on with it.
-- Threads call semaphores, events and each other's descriptors; these put threads on queues; the
-- launcher takes new threads off their queue and gives them stacks. Dread.Place says where each
-- thread may stand, and its children follow every call. A call that waits inside the package, as
-- `dthr_semaphore_take_no_yield` does, is several steps; those that cannot be interrupted are one.
-- Numbers stand for addresses, 0 for the null pointer. The value of a semaphore is a natural number
-- without bound, stack addresses are depths in the direction in which the stack grows, and
-- `dthr_new_topmost_thread` has as much fuel as the stack has bytes. The sizes of stacks, their ends
-- and the test of that function have 32 bits and wrap around. A call through a bad context or
-- a null stack is a result of its own (`Fault`), as is each `abort`. Not modelled: DThr_Thread_Run
-- and its reaper, the debugging output, and what the user's `data` field holds.
--
-- ports/glibc-compat/src (`Compat`):
--   openat.c                        Compat.At, and Compat.At.Back on where the calls act.
--   mktemp.c                        Compat.TempName. The loop has fuel for the numbers of six digits:
--                                   a seventh goes over the end of the string, so that the model ends
--                                   there with a result of its own, as where the template is shorter
--                                   than its suffix. The copy of the suffix onto itself by `sprintf`
--                                   is taken to leave it.
--   writev.c                        Compat.Vectored. A buffer's length is fuel for its loop. The sum
--                                   of the bytes is without bound.
-- The system's calls are parameters; what the theorems use of them is in the records `IsSystem`,
-- `Leaves` and `IsWrite`. The copies of the resolver, of fts.c and of other library files there are
-- not modelled, nor is realpath.c, a copy from the Native Client's SDK.
--
-- ports/nacl-spawn (`Spawn`):
--   nacl_pp_helpers.c               Spawn.Var: dictionaries and arrays. The laws of the Pepper
--                                   interface are in `IsArray` and `IsDictionary`. Spawn.Replies:
--                                   nspawn_send_request and handle_reply as steps of two threads, with
--                                   the mutex, the condition and the result of the reply.
--   nacl_setup_env.c                Spawn.Pipes: `getenv_as_int` and `restore_pipes`, with a number of
--                                   entries as fuel. Spawn.Setup: the mounts and their
--                                   messages, and in Start `nacl_setup_env`, which joins Var, Apipe and
--                                   Pipes.
--   nacl_apipe.c                    Spawn.Apipe: pipes to the browser, but apipe_fgetattr; the request
--                                   to the browser is a parameter.
--   nacl_startup_untar.c            Spawn.Untar: a buffer's length is fuel for reading and writing.
--                                   Paths have no bound there, as the code has no test of one.
--   path_util.cc                    Spawn.Paths.
--   elf_reader.cc                   Spawn.Elf, with a child for each reader: Headers, Dynamic, Strings.
--                                   A file is its bytes, with what `fseek` does as a parameter. The
--                                   fuel for the dynamic entries is one more than the bytes left. A
--                                   `size_t` has 32 bits, as in the Native Client.
--   library_dependencies.cc         Spawn.Libraries, on Spawn.Paths and Spawn.Elf. The depth of the
--                                   calls is fuel, the number of files that can be read and two;
--                                   Libraries.Finds.Missing is the measure. `std::set` is a list in
--                                   order (Prelude.Sets).
--   nacl_spawn.cc                   Spawn.Script: scripts. Spawn.Nmf: the manifest of a request, with
--                                   Spawn.Script and Spawn.Libraries. Spawn.Fds: the descriptors that
--                                   a process inherits and those kept across vfork; Spawn.Fds.Inherit
--                                   joins them with Spawn.Pipes. Spawn.Requests: `spawnve_impl`,
--                                   `waitpid_impl`, and in Calls the others and vfork.
-- A process sends its request (Requests) with the manifest that Nmf makes and an entry for each pipe
-- (Fds); the new process reads those entries (Pipes). What is on the stack behind the bytes of a script,
-- what a union of another type holds, and the calls of the system are parameters. A failed assertion,
-- a read outside a buffer, and a status that was never written are results of their own. Not modelled:
-- the number of a request and the check of NACL_PROCESS in nspawn_send_request, an error and a wake-up
-- without signal of its wait, jseval, the variants of wait and exec that only rearrange arguments, and
-- output for debugging.
--
-- Prelude passes on the library's names and has the Boolean tests, the predicates on lists and the
-- integers that the others share. Modules called Examples and Tests hold concrete runs.
pub mod Prelude
pub mod Dread
pub mod Compat
pub mod Spawn
