-- ===== src/Spawn/Pipes.antt =====
-- ports/nacl-spawn/nacl_setup_env.c: the pipes that a process inherits, `restore_pipes`.
pub mod Once
mod Examples
use webports.Prelude.{
  ℕ, zero, suc, ◌+◌, ℤ, pos, negsuc, eq_int, is_negative, Bool, true, false, not, ◌&&◌, List, [],
  ◌∷◌, ◌++◌, length, Option, none, some, leb, if◌then◌else◌,
}

-- `MAX_OLD_PIPES`
abbrev pub max_old_pipes : ℕ
max_old_pipes = 100

-- A row of `old_pipes`.
pub record OldPipe : Type 0 where
  pub port : ℤ
  pub writer : ℤ
  pub fd : ℤ

-- The C library's calls, on the state `K` of the environment and the descriptors. `setup n` is the
-- value of `NACL_SPAWN_FD_SETUP_n`, and `scan` reads "pipe:%d:%d:%d" as port, writer and descriptor.
pub record Library (K : Type 0) : Type 0 where
  pub setup : ℕ → K → Option (List ℕ)
  pub unset : ℕ → K → K
  pub scan : List ℕ → Option OldPipe
  pub open_pipe : ℤ → Bool → K → K × ℤ
  pub dup2 : ℤ → ℤ → K → K
  pub close : ℤ → K → K
  pub getenv : List ℕ → K → Option (List ℕ)
  pub strtol : List ℕ → Option ℤ

-- `restore_pipes` returns 0 or 1, with the pipes that it opened, or has no fuel left.
pub data Restored (K : Type 0) : Type 0 where
  restored : List OldPipe → K → Restored K
  failed : List OldPipe → K → Restored K
  exhausted : Restored K

-- The first row with this port and direction.
unfoldable pub find_pipe : ℤ → ℤ → List OldPipe → Option OldPipe
find_pipe port writer [] = none
find_pipe port writer (p ∷ rest) =
    let later = find_pipe port writer rest in
    if eq_int p.port port && eq_int p.writer writer then some p else later

module _ {K : Type 0} (lib : Library K) where
  -- `none` if the variable is not set or `strtol` sets `errno`: the code returns -1 then.
  unfoldable pub getenv_as_int : List ℕ → K → ℤ
  getenv_as_int env k = elim (lib.getenv env k) [
    | none ↦ negsuc 0
    | some env_str ↦ elim (lib.strtol env_str) [ none ↦ negsuc 0 | some env_int ↦ env_int ]
  ]

  -- The new pipe gets the descriptor that the entry names.
  unfoldable pub place_pipe : ℤ → ℤ → K → K
  place_pipe fd_tmp fd k = if eq_int fd_tmp fd then k else lib.close fd_tmp (lib.dup2 fd_tmp fd k)

  -- One round of the loop: `later` is the rest of it, from the next entry on. An entry's pipe is
  -- opened, and its row written.
  unfoldable pub restore_new :
      (List OldPipe → K → Restored K) → OldPipe → List OldPipe → K → Restored K
  unfolding place_pipe
  restore_new later e old k =
      let (k1, fd_tmp) = lib.open_pipe e.port (not (eq_int e.writer (pos 0))) k in
      let k2 = place_pipe fd_tmp e.fd k1 in
      if is_negative fd_tmp
      then failed old k1
      else if leb max_old_pipes (length old)
      then failed old k2
      else later (old ++ e ∷ []) k2

  -- A pipe that is open already is only duplicated.
  unfoldable pub restore_found :
      (List OldPipe → K → Restored K) → OldPipe → Option OldPipe → List OldPipe → K → Restored K
  unfolding restore_new
  restore_found later e (some p) old k = later old (lib.dup2 p.fd e.fd k)
  restore_found later e none old k = restore_new later e old k

  unfoldable pub restore_scanned :
      (List OldPipe → K → Restored K) → Option OldPipe → List OldPipe → K → Restored K
  unfolding restore_found find_pipe
  restore_scanned later none old k = later old k
  restore_scanned later (some e) old k = restore_found later e (find_pipe e.port e.writer old) old k

  unfoldable pub restore_entry :
      (List OldPipe → K → Restored K) → ℕ → Option (List ℕ) → List OldPipe → K → Restored K
  unfolding restore_scanned
  restore_entry later count none old k = restored old k
  restore_entry later count (some env_entry) old k =
      restore_scanned later (lib.scan env_entry) old (lib.unset count k)

  -- The loop over the entries, from `count` on; the first number is fuel.
  unfoldable pub restore_loop : ℕ → ℕ → List OldPipe → K → Restored K
  unfolding restore_entry
  restore_loop zero count old k = exhausted
  restore_loop (suc fuel) count old k =
      restore_entry (restore_loop fuel (count + 1)) count (lib.setup count k) old k

  unfoldable pub restore_pipes : ℕ → K → Restored K
  unfolding restore_loop
  restore_pipes fuel k = restore_loop fuel 0 [] k
