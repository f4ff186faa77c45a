-- ===== src/Spawn/Untar.antt =====
-- ports/nacl-spawn/nacl_startup_untar.c: the extraction of an archive when a program starts.
pub mod Reading
pub mod Writing
mod Examples
use webports.Prelude.{
  ℕ, zero, suc, ◌+◌, ◌-◌, ◌*◌, Bool, true, false, List, [], ◌∷◌, ◌++◌, length, Option, none, some,
  ltb, ◌==◌, ◌||◌, if◌then◌else◌,
}

-- What the code calls: the C library, libtar and the Pepper instance, on the state `K` of the file
-- system. Where a stream stands in its file is the number of bytes that it has read.
pub record Host (K : Type 0) : Type 0 where
  pub instance_id : ℕ
  pub devenv : Bool
  pub stat_ok : List ℕ → K → Bool
  pub open_reads : List ℕ → K → Bool
  pub fread : List ℕ → ℕ → ℕ → K → List ℕ
  pub feof : List ℕ → ℕ → K → Bool
  pub open_writes : List ℕ → K → K × Bool
  pub fwrite : List ℕ → List ℕ → K → K × ℕ
  pub tar_open : List ℕ → K → K × Bool
  pub tar_extract_all : List ℕ → List ℕ → K → K × Bool
  pub tar_close : List ℕ → K → K × Bool

unfoldable pub max_hash_len : ℕ
max_hash_len = 10 * 1024

abbrev pub drop : ℕ → List ℕ → List ℕ
drop zero xs = xs
drop (suc n) [] = []
drop (suc n) (x ∷ xs) = drop n xs

-- `strncmp(a, b, n) == 0` on the first `n` bytes of two buffers: a null byte in both ends it.
unfoldable pub strncmp_eq : List ℕ → List ℕ → Bool
strncmp_eq [] b = true
strncmp_eq (x ∷ a) [] = false
strncmp_eq (x ∷ a) (y ∷ b) =
    let rest = strncmp_eq a b in if x == y then (if x == 0 then true else rest) else false

pub record HashFiles : Type 0 where
  pub expected : List ℕ
  pub installed : List ℕ

-- `'/'`
abbrev pub slash : ℕ
slash = 47

-- What stands up to and with the last slash, and from the last slash on, if there is one.
abbrev pub to_slash : List ℕ → Option (List ℕ)
to_slash [] = none
to_slash (c ∷ rest) = elim (to_slash rest) [
  | some dir ↦ some (c ∷ dir)
  | none ↦ if c == slash then some (c ∷ []) else none
]

abbrev pub from_slash : List ℕ → Option (List ℕ)
from_slash [] = none
from_slash (c ∷ rest) = elim (from_slash rest) [
  | some base ↦ some base
  | none ↦ if c == slash then some (c ∷ rest) else none
]

abbrev or_else : Option (List ℕ) → List ℕ → List ℕ
or_else (some x) d = x
or_else none d = d

-- `".hash"` and `"/mnt/http/"`
abbrev pub dot_hash : List ℕ
dot_hash = 46 ∷ 104 ∷ 97 ∷ 115 ∷ 104 ∷ []

abbrev pub mnt_http : List ℕ
mnt_http = 47 ∷ 109 ∷ 110 ∷ 116 ∷ 47 ∷ 104 ∷ 116 ∷ 116 ∷ 112 ∷ 47 ∷ []

-- `read_file` read some bytes, or returned -1, or its fuel was used up.
pub data FileRead : Type 0 where
  bytes_read : List ℕ → FileRead
  read_failed : FileRead
  read_exhausted : FileRead

-- The comparison of the hash that was read next to the archive with the installed one.
unfoldable pub same_hash : FileRead → FileRead → Bool
unfolding strncmp_eq
same_hash (bytes_read expected) (bytes_read installed) =
    if length installed == length expected then strncmp_eq expected installed else false
same_hash _ _ = false

module _ {K : Type 0} (host : Host K) where
  -- The loop of `read_file`, behind `bytes`; the first number is fuel.
  unfoldable pub read_loop : ℕ → List ℕ → ℕ → List ℕ → K → FileRead
  read_loop zero filename buffer_len bytes k = read_exhausted
  read_loop (suc fuel) filename buffer_len bytes k =
      let chunk = host.fread filename (length bytes) (buffer_len - length bytes) k in
      let later = read_loop fuel filename buffer_len (bytes ++ chunk) k in
      if ltb (length bytes) buffer_len
      then (if length chunk == 0
          then (if host.feof filename (length bytes) k then bytes_read bytes else read_failed)
          else later)
      else bytes_read bytes

  -- `read_file`: the bytes that it read, or -1. Each round reads a byte at least, so that one more than
  -- the length of the buffer is fuel enough.
  unfoldable pub read_file : List ℕ → ℕ → K → FileRead
  unfolding read_loop
  read_file filename buffer_len k =
      if host.open_reads filename k
      then read_loop (buffer_len + 1) filename buffer_len [] k
      else read_failed

  -- The loop of `write_file`, with what is left of the buffer.
  unfoldable pub write_loop : ℕ → List ℕ → List ℕ → K → K × Bool
  write_loop zero filename buffer k = (k, true)
  write_loop (suc fuel) filename buffer k =
      let (k1, written) = host.fwrite filename buffer k in
      let later = write_loop fuel filename (drop written buffer) k1 in
      if length buffer == 0 then (k, true) else if written == 0 then (k1, false) else later

  unfoldable pub write_file : List ℕ → List ℕ → K → K × Bool
  unfolding write_loop
  write_file filename buffer k =
      let (k1, opened) = host.open_writes filename k in
      if opened then write_loop (length buffer) filename buffer k1 else (k1, false)

  unfoldable pub copy_hashfile : HashFiles → K → K
  unfolding read_file write_file
  copy_hashfile files k = elim (read_file files.expected max_hash_len k) [
    | read_failed ↦ k
    | read_exhausted ↦ k
    | bytes_read buffer ↦ (write_file files.installed buffer k).0
  ]

  unfoldable pub already_extracted : HashFiles → K → Bool
  unfolding read_file same_hash
  already_extracted files k =
      same_hash (read_file files.expected max_hash_len k) (read_file files.installed max_hash_len k)

  -- The path of the archive: next to the program, or below `/mnt/http/`.
  unfoldable pub tar_path : List ℕ → List ℕ → K → List ℕ
  tar_path argv0 tarfile k =
      let filename = or_else (to_slash argv0) [] ++ tarfile in
      if host.stat_ok filename k then filename else mnt_http ++ tarfile

  unfoldable pub hash_files : List ℕ → List ℕ → List ℕ → HashFiles
  hash_files filename tarfile root = record {
    expected = filename ++ dot_hash;
    installed = root ++ (or_else (from_slash filename) tarfile ++ dot_hash);
  }

  -- The extraction: the result is that of `nacl_startup_untar`, and `none` a failed assertion.
  unfoldable pub extract : List ℕ → List ℕ → HashFiles → K → K × Option ℕ
  unfolding copy_hashfile
  extract filename root files k =
      let (k1, opened) = host.tar_open filename k in
      let (k2, extracted) = host.tar_extract_all filename root k1 in
      let (k3, closed) = host.tar_close filename k2 in
      if opened
      then (if extracted
          then (if closed then (copy_hashfile files k3, some 0) else (k3, none))
          else (k2, some 1))
      else (k1, some 1)

  unfoldable pub startup_untar : List ℕ → List ℕ → List ℕ → K → K × Option ℕ
  unfolding already_extracted tar_path hash_files extract
  startup_untar argv0 tarfile root k =
      let filename = tar_path argv0 tarfile k in
      let files = hash_files filename tarfile root in
      if host.instance_id == 0 || host.devenv
      then (k, some 0)
      else if already_extracted files k
      then (k, some 0)
      else extract filename root files k
