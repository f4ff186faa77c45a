-- ===== src/Spawn/Elf/Examples.antt =====
-- The reader of ELF files on a small shared object, which needs one library.
use webports.Prelude.{ℕ, false, arith, [], ◌∷◌, ◌++◌, ◌≡◌, refl, some, Text}
use webports.Spawn.Elf.Fields.{File, drop}
use webports.Spawn.Elf.Headers.{Segment}
use webports.Spawn.Elf.Dynamic.{Entry}
use webports.Spawn.Elf.Image.{Ehdr, SegmentFits}
use webports.Spawn.Elf.Image.Reads.{image_file}
use webports.Spawn.Elf.Image.Whole.{IsSharedObject, elf_reader-IsSharedObject}
use webports.Spawn.Elf.{dynamic, elf_reader}

-- `Elf32_Ehdr`, and program headers for the whole file and for its dynamic entries.
abbrev pub small_headers : Text
small_headers =
    (127 ∷ 69 ∷ 76 ∷ 70 ∷ 1 ∷ 1 ∷ 1 ∷ 0 ∷ 0 ∷ 0 ∷ 0 ∷ 0 ∷ 0 ∷ 0 ∷ 0 ∷ 0 ∷ 3 ∷ 0 ∷ 3 ∷ 0 ∷ 1 ∷ 0 ∷ 0
      ∷ 0 ∷ 0 ∷ 0 ∷ 0 ∷ 0 ∷ 52 ∷ 0 ∷ 0 ∷ 0 ∷ 0 ∷ 0 ∷ 0 ∷ 0 ∷ 0 ∷ 0 ∷ 0 ∷ 0 ∷ 52 ∷ 0 ∷ 32 ∷ 0 ∷ 2 ∷ 0
      ∷ 0 ∷ 0 ∷ 0 ∷ 0 ∷ 0 ∷ 0 ∷ [])
    ++ ((1 ∷ 0 ∷ 0 ∷ 0 ∷ 0 ∷ 0 ∷ 0 ∷ 0 ∷ 0 ∷ 16 ∷ 0 ∷ 0 ∷ 0 ∷ 16 ∷ 0 ∷ 0 ∷ 151 ∷ 0 ∷ 0 ∷ 0 ∷ 151 ∷ 0
          ∷ 0 ∷ 0 ∷ 5 ∷ 0 ∷ 0 ∷ 0 ∷ 0 ∷ 0 ∷ 0 ∷ 0 ∷ [])
        ++ (2 ∷ 0 ∷ 0 ∷ 0 ∷ 116 ∷ 0 ∷ 0 ∷ 0 ∷ 116 ∷ 16 ∷ 0 ∷ 0 ∷ 116 ∷ 16 ∷ 0 ∷ 0 ∷ 32 ∷ 0 ∷ 0 ∷ 0
            ∷ 32 ∷ 0 ∷ 0 ∷ 0 ∷ 6 ∷ 0 ∷ 0 ∷ 0 ∷ 0 ∷ 0 ∷ 0 ∷ 0 ∷ []))

-- `DT_STRTAB`, `DT_STRSZ`, `DT_NEEDED` and `DT_NULL`.
abbrev pub small_entries : Text
small_entries =
    5 ∷ 0 ∷ 0 ∷ 0 ∷ 148 ∷ 16 ∷ 0 ∷ 0 ∷ 10 ∷ 0 ∷ 0 ∷ 0 ∷ 3 ∷ 0 ∷ 0 ∷ 0 ∷ 1 ∷ 0 ∷ 0 ∷ 0 ∷ 1 ∷ 0 ∷ 0
    ∷ 0 ∷ 0 ∷ 0 ∷ 0 ∷ 0 ∷ 0 ∷ 0 ∷ 0 ∷ 0 ∷ []

-- A shared object for `EM_386` that needs the library with the name of this letter.
abbrev pub small_file : ℕ → File
small_file letter = record {
  contents = small_headers ++ (small_entries ++ (0 ∷ letter ∷ 0 ∷ []));
  seek = λ off. some off;
}

pub elf_reader-small_a : elf_reader (some (small_file b'a')) ≡ dynamic 3 ((b'a' ∷ []) ∷ [])
unfolding elf_reader
elf_reader-small_a = refl

pub elf_reader-small_b : elf_reader (some (small_file b'b')) ≡ dynamic 3 ((b'b' ∷ []) ∷ [])
unfolding elf_reader
elf_reader-small_b = refl

abbrev small_ehdr : Ehdr
small_ehdr = record {
  pad = 257;
  e_type = 3;
  e_machine = 3;
  e_version = 1;
  e_entry = 0;
  e_phoff = 52;
  e_shoff = 0;
  e_flags = 0;
  e_ehsize = 52;
  e_phentsize = 32;
  e_phnum = 2;
  e_shentsize = 0;
  e_shnum = 0;
  e_shstrndx = 0;
}

abbrev small_load : Segment
small_load = record {
  p_type = 1;
  p_flags = 5;
  p_offset = 0;
  p_vaddr = 4096;
  p_paddr = 4096;
  p_filesz = 151;
  p_memsz = 151;
  p_align = 0;
}

abbrev small_dynamic : Segment
small_dynamic = record {
  p_type = 2;
  p_flags = 6;
  p_offset = 116;
  p_vaddr = 4212;
  p_paddr = 4212;
  p_filesz = 32;
  p_memsz = 32;
  p_align = 0;
}

abbrev tagged : ℕ → ℕ → Entry
tagged tag val = record { d_tag = tag; d_val = val }

abbrev small_rest : Text
small_rest = drop 52 (small_file b'a').contents

small_load-SegmentFits : SegmentFits false small_load
small_load-SegmentFits = omega arith

small_dynamic-SegmentFits : SegmentFits false small_dynamic
small_dynamic-SegmentFits = omega arith

small_ehdr-IsSharedObject :
    IsSharedObject false small_ehdr small_rest (λ off. some off) ((b'a' ∷ []) ∷ [])
unfolding drop
small_ehdr-IsSharedObject = record {
  segments = small_load ∷ small_dynamic ∷ [];
  before = small_load ∷ [];
  after = [];
  dyn = small_dynamic;
  before_load = [];
  after_load = small_dynamic ∷ [];
  load = small_load;
  entries = tagged 5 4244 ∷ tagged 10 3 ∷ tagged 1 1 ∷ [];
  strtab = 0 ∷ b'a' ∷ 0 ∷ [];
  seek_start = refl;
  machine_fits = omega arith;
  phoff_fits = omega arith;
  phnum_fits = omega arith;
  count = refl;
  fits = (small_load-SegmentFits, (small_dynamic-SegmentFits, tt));
  headers = (refl, small_entries ++ (0 ∷ b'a' ∷ 0 ∷ []), refl);
  has_dyn = refl;
  none_before = (λ e. omega arith, tt);
  none_after = tt;
  is_dynamic = refl;
  has_contents = λ e. omega arith;
  entries_fit = omega arith;
  has_entries = (refl, 0 ∷ b'a' ∷ 0 ∷ [], refl);
  has_load = refl;
  first_load = tt;
  loads = (refl, omega arith, omega arith, omega arith, omega arith);
  not_start = λ e. omega arith;
  size = refl;
  has_strtab = (refl, [], refl);
  has_names = ((omega arith, omega arith, [], refl, (λ e. omega arith, tt)), tt);
}

elf_reader-IsSharedObject_example :
    elf_reader (some (image_file false small_ehdr small_rest (λ off. some off)))
    ≡ dynamic 3 ((b'a' ∷ []) ∷ [])
elf_reader-IsSharedObject_example =
    elf_reader-IsSharedObject false small_ehdr small_rest (λ off. some off) ((b'a' ∷ []) ∷ [])
      small_ehdr-IsSharedObject
