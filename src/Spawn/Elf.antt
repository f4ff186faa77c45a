-- ===== src/Spawn/Elf.antt =====
-- ports/nacl-spawn/elf_reader.cc: the libraries that an ELF file needs. The layouts are those of
-- ports/glibc-compat/include/elf32.h and elf64.h; all numbers are little-endian.
pub mod Fields
pub mod Headers
pub mod Dynamic
pub mod Strings
pub mod Ends
pub mod Image
pub mod Examples
use webports.Prelude.{
  ℕ, ◌==◌, ℤ, Bool, true, false, List, [], ◌∷◌, ℤ, Option, none, some, if◌then◌else◌, Text,
}
use webports.Spawn.Elf.Fields.{File}
use webports.Spawn.Elf.Headers.{ElfHeaders, Segment, read_headers}
use webports.Spawn.Elf.Dynamic.{
  DynamicInfo, Dynamics, dynamics, no_segment, bad_segment, read_dynamic,
}
use webports.Spawn.Elf.Strings.{read_strtab, names_at}

-- What the constructor of `ElfReader` leaves behind: `is_valid_` is false, `is_static_` is true,
-- `neededs_` are known, or a name is read outside the string table.
pub data ElfReader : Type 0 where
  invalid : ElfReader
  static : ℕ → ElfReader
  dynamic : ℕ → List Text → ElfReader
  wild : ElfReader
  no_fuel : ElfReader

-- The constructor, from what `ReadStrtab` leaves.
unfoldable pub with_strtab : ℕ → List ℤ → Option Text → ElfReader
unfolding names_at
with_strtab machine neededs none = invalid
with_strtab machine neededs (some strtab) = elim (names_at strtab neededs) [
  | none ↦ wild
  | some names ↦ dynamic machine names
]

unfoldable pub with_dynamics : File → ElfHeaders → Dynamics → ElfReader
unfolding with_strtab read_strtab
with_dynamics file headers (dynamics info) =
    with_strtab headers.machine info.neededs
      (read_strtab file headers.segments info.straddr info.strsize)
with_dynamics file headers no_segment = static headers.machine
with_dynamics file headers bad_segment = invalid
with_dynamics file headers Dynamics.no_fuel = no_fuel

-- The constructor of `ElfReader`; `none` is a file that `fopen` does not open.
unfoldable pub elf_reader : Option File → ElfReader
unfolding with_dynamics read_headers read_dynamic
elf_reader none = invalid
elf_reader (some file) = elim (read_headers file) [
  | none ↦ invalid
  | some headers ↦ with_dynamics file headers (read_dynamic file headers.is_64 headers.segments)
]
