-- ===== src/Spawn/Elf/Headers.antt =====
-- `ElfReader::ReadHeaders` of ports/nacl-spawn/elf_reader.cc.
use webports.Prelude.{
  ℕ, zero, suc, Bool, true, false, List, [], ◌∷◌, Option, none, some, ◌==◌, if◌then◌else◌, Text,
  eq_text,
}
use webports.Spawn.Elf.Fields.{File, ◌>>=◌, fread, fseek, field, take}

-- `Elf64_Phdr`
pub record Segment : Type 0 where
  pub p_type : ℕ
  pub p_flags : ℕ
  pub p_offset : ℕ
  pub p_vaddr : ℕ
  pub p_paddr : ℕ
  pub p_filesz : ℕ
  pub p_memsz : ℕ
  pub p_align : ℕ

-- What is known of a file after its headers: `elf_class_ == ELFCLASS64`, `machine_` and `phdrs`.
pub record ElfHeaders : Type 0 where
  pub is_64 : Bool
  pub machine : ℕ
  pub segments : List Segment

-- `ELFMAG`
abbrev pub elfmag : Text
elfmag = 127 ∷ b'E' ∷ b'L' ∷ b'F' ∷ []

-- `sizeof` of the file's header, of a program header and of a dynamic entry.
abbrev pub ehdr_size : Bool → ℕ
ehdr_size false = 52
ehdr_size true = 64

abbrev pub phdr_size : Bool → ℕ
phdr_size false = 32
phdr_size true = 56

unfoldable pub ehdr_machine : Text → ℕ
unfolding field
ehdr_machine ehdr = field 18 2 ehdr

unfoldable pub ehdr_phoff : Bool → Text → ℕ
unfolding field
ehdr_phoff false ehdr = field 28 4 ehdr
ehdr_phoff true ehdr = field 32 8 ehdr

unfoldable pub ehdr_phnum : Bool → Text → ℕ
unfolding field
ehdr_phnum false ehdr = field 44 2 ehdr
ehdr_phnum true ehdr = field 56 2 ehdr

-- `Elf32_Phdr`, with its fields widened, and `Elf64_Phdr`.
unfoldable pub segment : Bool → Text → Segment
unfolding field
segment false phdr = record {
  p_type = field 0 4 phdr;
  p_flags = field 24 4 phdr;
  p_offset = field 4 4 phdr;
  p_vaddr = field 8 4 phdr;
  p_paddr = field 12 4 phdr;
  p_filesz = field 16 4 phdr;
  p_memsz = field 20 4 phdr;
  p_align = field 28 4 phdr;
}
segment true phdr = record {
  p_type = field 0 4 phdr;
  p_flags = field 4 4 phdr;
  p_offset = field 8 8 phdr;
  p_vaddr = field 16 8 phdr;
  p_paddr = field 24 8 phdr;
  p_filesz = field 32 8 phdr;
  p_memsz = field 40 8 phdr;
  p_align = field 48 8 phdr;
}

-- The loop over the program headers.
unfoldable pub read_segments : Bool → ℕ → Text → Option (List Segment)
unfolding segment fread
read_segments is_64 zero stream = some []
read_segments is_64 (suc phnum) stream = do
  (phdr, rest) ← fread (phdr_size is_64) stream
  phdrs ← read_segments is_64 phnum rest
  some (segment is_64 phdr ∷ phdrs)

-- `ELFCLASS32` and `ELFCLASS64`; any other class is an error.
unfoldable pub class_of : ℕ → Option Bool
class_of elf_class =
    if elf_class == 1 then some false else if elf_class == 2 then some true else none

-- The header of the file's own class: the bytes read already, or those of a longer header.
unfoldable pub own_header : File → Bool → Text → Option Text
unfolding fseek fread
own_header file false ehdr32 = some ehdr32
own_header file true ehdr32 = do
  start ← fseek file 0
  (ehdr64, rest) ← fread (ehdr_size true) start
  some ehdr64

unfoldable pub headers_of : File → Bool → Text → Option ElfHeaders
unfolding ehdr_machine ehdr_phoff ehdr_phnum fseek read_segments
headers_of file is_64 ehdr = do
  stream ← fseek file (ehdr_phoff is_64 ehdr)
  phdrs ← read_segments is_64 (ehdr_phnum is_64 ehdr) stream
  some (record { is_64 = is_64; machine = ehdr_machine ehdr; segments = phdrs })

-- `none` is each failure of `ReadHeaders`.
unfoldable pub read_headers : File → Option ElfHeaders
unfolding fread take field eq_text class_of own_header headers_of
read_headers file = do
  (ehdr32, rest) ← fread (ehdr_size false) file.contents
  is_64 ← if eq_text (take 4 ehdr32) elfmag then class_of (field 4 1 ehdr32) else none
  ehdr ← own_header file is_64 ehdr32
  headers_of file is_64 ehdr
