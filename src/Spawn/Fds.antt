-- ===== src/Spawn/Fds.antt =====
-- ports/nacl-spawn/nacl_spawn.cc: the descriptors that a new process inherits, and those that are
-- kept across `vfork`, from `CloneFileDescriptors` to `unstash_file_descriptors`.
pub mod Rows
pub mod Inherit
pub mod Kept
pub mod Samples
mod Examples
use webports.Prelude.{
  ℕ, zero, suc, ◌+◌, ℤ, pos, Bool, true, false, List, [], ◌∷◌, ◌++◌, Option, none, some,
  if◌then◌else◌, Text,
}
use webports.Spawn.Var.{PpVar, Pepper, array_appendstring}
use webports.Spawn.Pipes.{OldPipe}

-- `MAX_FILE_DESCRIPTOR`
unfoldable pub max_file_descriptor : ℕ
max_file_descriptor = 1000

-- What `fstat` finds: no open descriptor (`EBADF`), another error, a pipe with its `st_ino` and
-- whether it is open for writing, or a file of another kind.
pub data Stat : Type 0 where
  not_open : Stat
  stat_error : Stat
  fifo : ℤ → Bool → Stat
  other_kind : Stat

-- The open files of the process: `fcntl(fd, F_GETFD)` fails, or says whether the descriptor is
-- closed on `exec`.
pub record Table : Type 0 where
  pub fstat : ℕ → Stat
  pub close_on_exec : ℕ → Option Bool

pub data Cloned (K : Type 0) : Type 0 where
  cloned : K → Cloned K
  clone_failed : K → Cloned K

abbrev pub as_int : Bool → ℤ
as_int true = pos 1
as_int false = pos 0

-- `sprintf` of an entry of the environment, from its number and its row.
module _ {K : Type 0} (pp : Pepper K) (print : ℕ → OldPipe → Text) (table : Table)
    (envs_var : PpVar) where
  -- A round of the loop, by what `fstat` and `fcntl` find; `later` is the rest, from the number of
  -- entries on.
  unfoldable pub clone_open : (ℕ → K → Cloned K) → ℕ → ℕ → Stat → Option Bool → K → Cloned K
  unfolding array_appendstring
  clone_open later fd count not_open flags k = later count k
  clone_open later fd count stat_error flags k = clone_failed k
  clone_open later fd count (fifo ino writer) none k = clone_failed k
  clone_open later fd count (fifo ino writer) (some true) k = later count k
  clone_open later fd count (fifo ino writer) (some false) k = later (count + 1) (
      array_appendstring pp envs_var
        (print count (record { port = ino; writer = as_int writer; fd = pos fd })) k)
  clone_open later fd count other_kind none k = clone_failed k
  clone_open later fd count other_kind (some flag) k = later count k

  -- The loop over the descriptors; the first number is the rounds left.
  unfoldable pub clone_from : ℕ → ℕ → ℕ → K → Cloned K
  unfolding clone_open
  clone_from zero fd count k = cloned k
  clone_from (suc rounds) fd count k =
      clone_open (clone_from rounds (fd + 1)) fd count (table.fstat fd) (table.close_on_exec fd) k

  -- `CloneFileDescriptors`
  unfoldable pub clone_file_descriptors : K → Cloned K
  unfolding clone_from
  clone_file_descriptors k = clone_from max_file_descriptor 0 0 k

-- `dup2`, which is successful for a descriptor that is open, and `close`.
pub record Descriptors (K : Type 0) : Type 0 where
  pub dup2 : ℕ → ℕ → K → Bool × K
  pub close : ℕ → K → K

module _ {K : Type 0} (calls : Descriptors K) where
  -- The loop of `stash_file_descriptors`: a failure is that of a descriptor that is not open.
  unfoldable pub stash_from : ℕ → ℕ → K → K
  stash_from zero fd k = k
  stash_from (suc rounds) fd k =
      stash_from rounds (fd + 1) (calls.dup2 fd (fd + max_file_descriptor) k).1

  unfoldable pub stash_file_descriptors : K → K
  unfolding stash_from
  stash_file_descriptors k = stash_from max_file_descriptor 0 k

  unfoldable pub restore_one : ℕ → Bool × K → K
  restore_one alt_fd (true, k) = calls.close alt_fd k
  restore_one alt_fd (false, k) = k

  unfoldable pub unstash_from : ℕ → ℕ → K → K
  unfolding restore_one
  unstash_from zero fd k = k
  unstash_from (suc rounds) fd k =
      unstash_from rounds (fd + 1)
        (restore_one (fd + max_file_descriptor) (calls.dup2 (fd + max_file_descriptor) fd k))

  unfoldable pub unstash_file_descriptors : K → K
  unfolding unstash_from
  unstash_file_descriptors k = unstash_from max_file_descriptor 0 k
