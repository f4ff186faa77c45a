-- ===== src/Spawn/Elf/Dynamic.antt =====
-- `ElfReader::ReadDynamic` of ports/nacl-spawn/elf_reader.cc.
use webports.Prelude.{
  ℕ, zero, suc, ◌%◌, ℤ, Bool, true, false, List, [], ◌∷◌, ◌++◌, length, none, some, ◌+◌, ◌==◌,
  if◌then◌else◌, Text,
}
use webports.Spawn.Elf.Fields.{File, fread, fseek, field, to_int, two_32}
use webports.Spawn.Elf.Headers.{Segment}

-- `straddr`, `strsize`, which is a `size_t` of 32 bits, and `neededs`.
pub record DynamicInfo : Type 0 where
  pub straddr : ℕ
  pub strsize : ℕ
  pub neededs : List ℤ

-- `Elf64_Dyn`
pub record Entry : Type 0 where
  pub d_tag : ℕ
  pub d_val : ℕ

abbrev pub dyn_size : Bool → ℕ
dyn_size false = 8
dyn_size true = 16

unfoldable pub entry : Bool → Text → Entry
unfolding field
entry false dyn = record { d_tag = field 0 4 dyn; d_val = field 4 4 dyn }
entry true dyn = record { d_tag = field 0 8 dyn; d_val = field 8 8 dyn }

-- An entry that is not `DT_NULL`: `DT_STRTAB`, `DT_STRSZ`, `DT_NEEDED` or any other.
unfoldable pub record_entry : Entry → DynamicInfo → DynamicInfo
unfolding to_int
record_entry dyn info =
    if dyn.d_tag == 5
    then record info { straddr = dyn.d_val }
    else if dyn.d_tag == 10
    then record info { strsize = dyn.d_val % two_32 }
    else if dyn.d_tag == 1
    then record info { neededs = info.neededs ++ to_int dyn.d_val ∷ [] }
    else info

-- `ReadDynamic` returns true, or false with `is_static_` set or not, or has no fuel left.
pub data Dynamics : Type 0 where
  dynamics : DynamicInfo → Dynamics
  no_segment : Dynamics
  bad_segment : Dynamics
  no_fuel : Dynamics

-- The loop over the entries of a segment, and what follows it; the number is fuel.
unfoldable pub read_entries : Bool → (DynamicInfo → Dynamics) → ℕ → Text → DynamicInfo → Dynamics
unfolding fread entry record_entry
read_entries is_64 later zero stream info = no_fuel
read_entries is_64 later (suc fuel) stream info = elim (fread (dyn_size is_64) stream) [
  | none ↦ bad_segment
  | some (bytes, rest) ↦ elim ((entry is_64 bytes).d_tag == 0) [
    | true ↦ later info
    | false ↦ read_entries is_64 later fuel rest (record_entry (entry is_64 bytes) info)
  ]
]

-- A segment with the type `PT_DYNAMIC`. The entries of a file are fewer than its bytes.
unfoldable pub read_dynamic_segment :
    File → Bool → Segment → (DynamicInfo → Dynamics) → DynamicInfo → Dynamics
unfolding fseek read_entries
read_dynamic_segment file is_64 phdr later info =
    if phdr.p_filesz == 0 then bad_segment else elim (fseek file phdr.p_offset) [
      | none ↦ bad_segment
      | some stream ↦ read_entries is_64 later (length stream + 1) stream info
    ]

-- The loop over the segments; the Boolean is `dynamic_found`. The tests of `strsize` and `straddr`
-- behind it are of the pointers, which are not null.
unfoldable pub read_segments_from : File → Bool → List Segment → Bool → DynamicInfo → Dynamics
unfolding read_dynamic_segment
read_segments_from file is_64 [] dynamic_found info =
    if dynamic_found then dynamics info else no_segment
read_segments_from file is_64 (phdr ∷ phdrs) dynamic_found info = elim (phdr.p_type == 2) [
  | false ↦ read_segments_from file is_64 phdrs dynamic_found info
  | true ↦ read_dynamic_segment file is_64 phdr (read_segments_from file is_64 phdrs true) info
]

unfoldable pub read_dynamic : File → Bool → List Segment → Dynamics
unfolding read_segments_from
read_dynamic file is_64 phdrs =
    read_segments_from file is_64 phdrs false (record { straddr = 0; strsize = 0; neededs = [] })
