-- ===== src/Spawn/Libraries.antt =====
-- ports/nacl-spawn/library_dependencies.cc: the shared objects that a program needs.
pub mod Needs
pub mod Extends
pub mod Finds
pub mod Closure
pub mod Result
mod Examples
use webports.Prelude.{
  ℕ, zero, suc, Bool, true, false, ◌&&◌, ◌||◌, not, List, [], ◌∷◌, ◌++◌, length, Option, none, some,
  ◌==◌, if◌then◌else◌, Text, eq_text, codes,
}
use webports.Prelude.Sets.{has, insert}
use webports.Spawn.Paths.{get_paths, find_in_paths}
use webports.Spawn.Elf.Fields.{File}
use webports.Spawn.Elf.{ElfReader, invalid, static, dynamic, wild, no_fuel, elf_reader}

-- The file system, and LD_LIBRARY_PATH.
pub record Disk : Type 0 where
  pub access : Text → Bool
  pub fopen : Text → Option File
  pub ld_library_path : Option Text

-- What `find_arch_and_library_deps` does: it returns true, with the architecture if it is written,
-- and the set; or false, with `errno` if it is set; or it has read a name outside a string table.
pub data Outcome : Type 0 where
  found : Option Text → List Text → Outcome
  failed : Option ℕ → Outcome
  out_of_bounds : Outcome
  exhausted : Outcome

-- `ENOENT` and `ENOEXEC`
abbrev pub enoent : ℕ
enoent = 2

abbrev pub enoexec : ℕ
enoexec = 8

-- "ld-nacl-x86-32.so.1" and "ld-nacl-x86-64.so.1", which are not searched.
unfoldable pub is_loader : Text → Bool
unfolding eq_text
is_loader name =
    eq_text name (codes "ld-nacl-x86-32.so.1") || eq_text name (codes "ld-nacl-x86-64.so.1")

-- `EM_X86_64`, `EM_386` and `EM_ARM`
unfoldable pub known : ℕ → Bool
known machine = (machine == 62) || (machine == 3) || (machine == 40)

unfoldable pub arch_of : ℕ → Option Text
arch_of machine =
    if machine == 62
    then some (codes "x86-64")
    else if machine == 3
    then some (codes "x86-32")
    else if machine == 40
    then some (codes "arm")
    else none

unfoldable pub library_paths : Disk → List Text
library_paths disk = get_paths disk.ld_library_path ++ (codes "/lib" ∷ codes "/usr/lib" ∷ [])

-- What is done after a call that returns true.
unfoldable pub then_with : Outcome → (List Text → Outcome) → Outcome
then_with (found arch deps) later = later deps
then_with (failed errno) later = failed errno
then_with out_of_bounds later = out_of_bounds
then_with exhausted later = exhausted

-- `*arch` is written before the rest of the call.
unfoldable pub named : Option Text → Outcome → Outcome
named none rest = failed none
named (some arch) (found _ deps) = found (some arch) deps
named (some arch) (failed errno) = failed errno
named (some arch) out_of_bounds = out_of_bounds
named (some arch) exhausted = exhausted

-- The tests of the machine; the Boolean says that `arch` is not null.
unfoldable pub with_machine : Bool → ℕ → Outcome → Outcome
unfolding known arch_of named
with_machine wants_arch machine rest =
    if known machine
    then (if wants_arch then named (arch_of machine) rest else rest)
    else failed (some enoexec)

-- A static file is fine only as the first one.
unfoldable pub static_binary : List Text → Outcome
static_binary deps = if length deps == 1 then found none [] else failed (some enoexec)

module _ (disk : Disk) (paths : List Text) where
  -- The loop over `neededs`; `find` is the recursive call.
  unfoldable pub find_needed : (Text → List Text → Outcome) → List Text → List Text → Outcome
  unfolding then_with is_loader find_in_paths
  find_needed find [] deps = found none deps
  find_needed find (name ∷ names) deps = elim (is_loader name) [
    | true ↦ find_needed find names deps
    | false ↦ elim (find_in_paths disk.access name paths) [
      | none ↦ failed (some enoent)
      | some path ↦ then_with (find path deps) (find_needed find names)
    ]
  ]

  -- What follows the insertion of the file.
  unfoldable pub visit : (Text → List Text → Outcome) → Bool → ElfReader → List Text → Outcome
  unfolding with_machine static_binary find_needed
  visit find wants_arch invalid deps = failed (some enoexec)
  visit find wants_arch (static machine) deps = with_machine wants_arch machine (static_binary deps)
  visit find wants_arch (dynamic machine names) deps =
      with_machine wants_arch machine (find_needed find names deps)
  visit find wants_arch wild deps = out_of_bounds
  visit find wants_arch no_fuel deps = exhausted

  -- `find_arch_and_library_deps`; the number is fuel.
  unfoldable pub find_deps : ℕ → Bool → Text → List Text → Outcome
  unfolding visit has insert elf_reader
  find_deps zero wants_arch filename deps = exhausted
  find_deps (suc fuel) wants_arch filename deps = elim (has filename deps) [
    | true ↦ found none deps
    | false ↦
        visit (find_deps fuel false) wants_arch (elf_reader (disk.fopen filename))
          (insert filename deps)
  ]

-- The loaders that are added, in a build for ARM or another.
unfoldable pub loaders : Bool → List Text
loaders true = codes "elf_loader_arm.nexe" ∷ codes "ld-nacl-arm.so.1" ∷ []
loaders false = codes "runnable-ld.so" ∷ []

unfoldable pub add_found : Option Text → List Text → List Text
add_found none deps = deps
add_found (some path) deps = deps ++ path ∷ []

unfoldable pub add_loaders : Disk → List Text → List Text → List Text
unfolding add_found library_paths
add_loaders disk [] deps = deps
add_loaders disk (name ∷ names) deps =
    add_loaders disk names (add_found (find_in_paths disk.access name (library_paths disk)) deps)

-- The loaders are for a program that has shared objects.
unfoldable pub with_loaders : Disk → Bool → Outcome → Outcome
unfolding add_loaders loaders
with_loaders disk arm (found arch []) = found arch []
with_loaders disk arm (found arch (dep ∷ deps)) =
    found arch (add_loaders disk (loaders arm) (dep ∷ deps))
with_loaders disk arm (failed errno) = failed errno
with_loaders disk arm out_of_bounds = out_of_bounds
with_loaders disk arm exhausted = exhausted

-- `nspawn_find_arch_and_library_deps`
unfoldable pub find_arch_and_library_deps : Disk → Bool → ℕ → Text → Outcome
unfolding with_loaders find_deps library_paths
find_arch_and_library_deps disk arm fuel filename =
    with_loaders disk arm (find_deps disk (library_paths disk) fuel true filename [])
