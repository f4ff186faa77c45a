-- ===== src/Spawn/Elf/Image.antt =====
-- What a shared object is in bytes, for ports/nacl-spawn/elf_reader.cc: the structs of
-- ports/glibc-compat/include/elf32.h and elf64.h, written out.
pub mod Bytes
pub mod Entries
pub mod Info
pub mod Reads
pub mod Segments
pub mod Whole
use webports.Prelude.{ℕ, ◌+◌, ◌*◌, ◌<◌, Bool, true, false, List, [], ◌∷◌, ◌++◌, Text, All}
use webports.Spawn.Elf.Headers.{Segment}
use webports.Spawn.Elf.Dynamic.{Entry}
use webports.Spawn.Elf.Image.Bytes.{bytes, limit}

-- `Elf32_Ehdr` and `Elf64_Ehdr`, with the class apart; `pad` is the rest of `e_ident`.
pub record Ehdr : Type 0 where
  pub pad : ℕ
  pub e_type : ℕ
  pub e_machine : ℕ
  pub e_version : ℕ
  pub e_entry : ℕ
  pub e_phoff : ℕ
  pub e_shoff : ℕ
  pub e_flags : ℕ
  pub e_ehsize : ℕ
  pub e_phentsize : ℕ
  pub e_phnum : ℕ
  pub e_shentsize : ℕ
  pub e_shnum : ℕ
  pub e_shstrndx : ℕ

-- The bytes of an address, and the number of the class.
abbrev pub word : Bool → ℕ
word false = 4
word true = 8

abbrev pub class : Bool → ℕ
class false = 1
class true = 2

abbrev pub ehdr_end : Ehdr → Text
ehdr_end h =
    bytes 4 h.e_flags
    ++ (bytes 2 h.e_ehsize
        ++ (bytes 2 h.e_phentsize
            ++ (bytes 2 h.e_phnum
                ++ (bytes 2 h.e_shentsize ++ (bytes 2 h.e_shnum ++ bytes 2 h.e_shstrndx)))))

abbrev pub ehdr_bytes : Bool → Ehdr → Text
ehdr_bytes is_64 h =
    127
    ∷ b'E'
    ∷ b'L'
    ∷ b'F'
    ∷ class is_64
    ∷ (bytes 11 h.pad
        ++ (bytes 2 h.e_type
            ++ (bytes 2 h.e_machine
                ++ (bytes 4 h.e_version
                    ++ (bytes (word is_64) h.e_entry
                        ++ (bytes (word is_64) h.e_phoff
                            ++ (bytes (word is_64) h.e_shoff ++ ehdr_end h)))))))

abbrev pub phdr_bytes : Bool → Segment → Text
phdr_bytes false s =
    bytes 4 s.p_type
    ++ (bytes 4 s.p_offset
        ++ (bytes 4 s.p_vaddr
            ++ (bytes 4 s.p_paddr
                ++ (bytes 4 s.p_filesz
                    ++ (bytes 4 s.p_memsz ++ (bytes 4 s.p_flags ++ bytes 4 s.p_align))))))
phdr_bytes true s =
    bytes 4 s.p_type
    ++ (bytes 4 s.p_flags
        ++ (bytes 8 s.p_offset
            ++ (bytes 8 s.p_vaddr
                ++ (bytes 8 s.p_paddr
                    ++ (bytes 8 s.p_filesz ++ (bytes 8 s.p_memsz ++ bytes 8 s.p_align))))))

abbrev pub dyn_bytes : Bool → Entry → Text
dyn_bytes is_64 d = bytes (word is_64) d.d_tag ++ bytes (word is_64) d.d_val

abbrev pub all_bytes {ℓ} : {A : Type ℓ} → (A → Text) → List A → Text
all_bytes f [] = []
all_bytes f (x ∷ xs) = f x ++ all_bytes f xs

-- Each number has room in its field.
pub record SegmentFits (is_64 : Bool) (s : Segment) : Type 0 where
  pub p_type : s.p_type < limit 4
  pub p_flags : s.p_flags < limit 4
  pub p_offset : s.p_offset < limit (word is_64)
  pub p_vaddr : s.p_vaddr < limit (word is_64)
  pub p_paddr : s.p_paddr < limit (word is_64)
  pub p_filesz : s.p_filesz < limit (word is_64)
  pub p_memsz : s.p_memsz < limit (word is_64)
  pub p_align : s.p_align < limit (word is_64)

abbrev pub EntryFits : Bool → Entry → Type 0
EntryFits is_64 d = (d.d_tag < limit (word is_64)) × (d.d_val < limit (word is_64))
