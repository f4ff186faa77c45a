-- ===== src/Spawn/Libraries/Needs.antt =====
-- ports/nacl-spawn/library_dependencies.cc: which files a program needs, and which are at fault.
use webports.Prelude.{ℕ, false, List, none, some, Text, ◌≡◌, Among}
use webports.Spawn.Paths.{find_in_paths}
use webports.Spawn.Elf.{invalid, static, dynamic, wild, elf_reader}
use webports.Spawn.Libraries.{Disk, is_loader, known}

module _ (disk : Disk) (paths : List Text) where
  -- The first file names a library, and the second is where it is found.
  pub data Needs (x y : Text) : Type 0 where
    needs :
        (machine : ℕ) (names : List Text) (name : Text)
        → elf_reader (disk.fopen x) ≡ dynamic machine names
        → Among name names
        → is_loader name ≡ false
        → find_in_paths disk.access name paths ≡ some y
        → Needs x y

  -- What a file needs directly or through others, and the file itself.
  pub data Reach (root : Text) : Text → Type 0 where
    here : Reach root root
    next : {x y : Text} → Reach root x → Needs x y → Reach root y

  -- A library that the file names is not found, or the file is no shared object for a machine that
  -- is known.
  pub data Faulty (x : Text) : Type 0 where
    not_valid : elf_reader (disk.fopen x) ≡ invalid → Faulty x
    not_shared : (machine : ℕ) → elf_reader (disk.fopen x) ≡ static machine → Faulty x
    not_bounded : elf_reader (disk.fopen x) ≡ wild → Faulty x
    not_known :
        (machine : ℕ) (names : List Text)
        → elf_reader (disk.fopen x) ≡ dynamic machine names
        → known machine ≡ false
        → Faulty x
    not_found :
        (machine : ℕ) (names : List Text) (name : Text)
        → elf_reader (disk.fopen x) ≡ dynamic machine names
        → Among name names
        → is_loader name ≡ false
        → find_in_paths disk.access name paths ≡ none
        → Faulty x
