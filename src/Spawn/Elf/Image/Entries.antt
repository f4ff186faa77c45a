-- ===== src/Spawn/Elf/Image/Entries.antt =====
-- The structs of an ELF file are read back, each and in sequence, by ports/nacl-spawn/elf_reader.cc.
use webports.Prelude.{
  Bool, true, false, List, [], ◌∷◌, ◌++◌, length, Option, some, Text, All, ◌≡◌, refl, ap, ◌∙◌,
  append_assoc,
}
use webports.Spawn.Elf.Fields.{◌>>=◌, fread}
use webports.Spawn.Elf.Headers.{Segment, segment, phdr_size, read_segments}
use webports.Spawn.Elf.Dynamic.{Entry, entry}
use webports.Spawn.Elf.Image.{phdr_bytes, dyn_bytes, all_bytes, SegmentFits, EntryFits}
use webports.Spawn.Elf.Image.Bytes.{number-bytes, fread-append}

segment-phdr_bytes :
    (is_64 : Bool) (s : Segment) → SegmentFits is_64 s → segment is_64 (phdr_bytes is_64 s) ≡ s
unfolding segment
segment-phdr_bytes false s h = λ i. record {
  p_type = number-bytes 4 s.p_type h.p_type i;
  p_flags = number-bytes 4 s.p_flags h.p_flags i;
  p_offset = number-bytes 4 s.p_offset h.p_offset i;
  p_vaddr = number-bytes 4 s.p_vaddr h.p_vaddr i;
  p_paddr = number-bytes 4 s.p_paddr h.p_paddr i;
  p_filesz = number-bytes 4 s.p_filesz h.p_filesz i;
  p_memsz = number-bytes 4 s.p_memsz h.p_memsz i;
  p_align = number-bytes 4 s.p_align h.p_align i;
}
segment-phdr_bytes true s h = λ i. record {
  p_type = number-bytes 4 s.p_type h.p_type i;
  p_flags = number-bytes 4 s.p_flags h.p_flags i;
  p_offset = number-bytes 8 s.p_offset h.p_offset i;
  p_vaddr = number-bytes 8 s.p_vaddr h.p_vaddr i;
  p_paddr = number-bytes 8 s.p_paddr h.p_paddr i;
  p_filesz = number-bytes 8 s.p_filesz h.p_filesz i;
  p_memsz = number-bytes 8 s.p_memsz h.p_memsz i;
  p_align = number-bytes 8 s.p_align h.p_align i;
}

phdr_size_lem : (is_64 : Bool) (s : Segment) → length (phdr_bytes is_64 s) ≡ phdr_size is_64
phdr_size_lem false s = refl
phdr_size_lem true s = refl

-- The program headers are read in order.
pub read_segments-all_bytes :
    (is_64 : Bool) (segs : List Segment) (r : Text)
    → All (SegmentFits is_64) segs
    → read_segments is_64 (length segs) (all_bytes (phdr_bytes is_64) segs ++ r) ≡ some segs
unfolding read_segments
read_segments-all_bytes is_64 [] r h = refl
read_segments-all_bytes is_64 (s ∷ segs) r h =
    let later = all_bytes (phdr_bytes is_64) segs in
    let first : fread (phdr_size is_64) ((phdr_bytes is_64 s ++ later) ++ r)
        ≡ some (phdr_bytes is_64 s, later ++ r) =
      ap (fread (phdr_size is_64)) (append_assoc (phdr_bytes is_64 s) later r)
      ∙ fread-append (phdr_size is_64) (phdr_bytes is_64 s) (later ++ r) (phdr_size_lem is_64 s) in
    ap
      (λ (o : Option (Text × Text)). o >>= λ p.
        read_segments is_64 (length segs) p.1 >>= λ phdrs. some (segment is_64 p.0 ∷ phdrs))
      first
    ∙ ap
        (λ (o : Option (List Segment)).
          o >>= λ phdrs. some (segment is_64 (phdr_bytes is_64 s) ∷ phdrs))
        (read_segments-all_bytes is_64 segs r h.1)
    ∙ ap (λ x. some (x ∷ segs)) (segment-phdr_bytes is_64 s h.0)

pub entry-dyn_bytes :
    (is_64 : Bool) (d : Entry) → EntryFits is_64 d → entry is_64 (dyn_bytes is_64 d) ≡ d
unfolding entry
entry-dyn_bytes false d h =
    λ i. record { d_tag = number-bytes 4 d.d_tag h.0 i; d_val = number-bytes 4 d.d_val h.1 i }
entry-dyn_bytes true d h =
    λ i. record { d_tag = number-bytes 8 d.d_tag h.0 i; d_val = number-bytes 8 d.d_val h.1 i }
