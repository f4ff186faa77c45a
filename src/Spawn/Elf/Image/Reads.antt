-- ===== src/Spawn/Elf/Image/Reads.antt =====
-- The headers of an ELF file, as ports/nacl-spawn/elf_reader.cc reads them.
use webports.Prelude.{
  ℕ, ◌<◌, Bool, true, false, List, ◌++◌, length, Option, some, Text, All, ◌≡◌, refl, ap, sym, ◌∙◌,
}
use webports.Spawn.Elf.Fields.{File, ◌>>=◌, fseek, drop}
use webports.Spawn.Elf.Headers.{
  ElfHeaders, Segment, ehdr_machine, ehdr_phoff, ehdr_phnum, read_segments, own_header, headers_of,
  read_headers,
}
use webports.Spawn.Elf.Image.{Ehdr, word, ehdr_bytes, phdr_bytes, all_bytes, SegmentFits}
use webports.Spawn.Elf.Image.Bytes.{limit, number-bytes}
use webports.Spawn.Elf.Image.Entries.{read_segments-all_bytes}

ehdr_machine_lem :
    (b : Bool) (h : Ehdr) → h.e_machine < limit 2 → ehdr_machine (ehdr_bytes b h) ≡ h.e_machine
unfolding ehdr_machine
ehdr_machine_lem false h l = number-bytes 2 h.e_machine l
ehdr_machine_lem true h l = number-bytes 2 h.e_machine l

ehdr_phoff_lem :
    (b : Bool) (h : Ehdr) → h.e_phoff < limit (word b) → ehdr_phoff b (ehdr_bytes b h) ≡ h.e_phoff
unfolding ehdr_phoff
ehdr_phoff_lem false h l = number-bytes 4 h.e_phoff l
ehdr_phoff_lem true h l = number-bytes 8 h.e_phoff l

ehdr_phnum_lem :
    (b : Bool) (h : Ehdr) → h.e_phnum < limit 2 → ehdr_phnum b (ehdr_bytes b h) ≡ h.e_phnum
unfolding ehdr_phnum
ehdr_phnum_lem false h l = number-bytes 2 h.e_phnum l
ehdr_phnum_lem true h l = number-bytes 2 h.e_phnum l

-- A file with these bytes at its start, and what `fseek` does with it.
abbrev pub image_file : Bool → Ehdr → Text → (ℕ → Option ℕ) → File
image_file b h rest seek = record { contents = ehdr_bytes b h ++ rest; seek = seek }

-- The bytes at an offset of the file, where `fseek` goes.
abbrev pub Holds : File → ℕ → Text → Type 0
Holds file off text = (file.seek off ≡ some off) × (r : Text) × (drop off file.contents ≡ text ++ r)

pub fseek-Holds :
    (file : File) (off : ℕ) (text : Text) (h : Holds file off text)
    → fseek file off ≡ some (text ++ h.1)
unfolding fseek
fseek-Holds file off text h =
    ap (λ (o : Option ℕ). o >>= λ p. some (drop p file.contents)) h.0 ∙ ap some h.2

headers_of_lem :
    (file : File) (b : Bool) (h : Ehdr) (segs : List Segment)
    → h.e_machine < limit 2
    → h.e_phoff < limit (word b)
    → h.e_phnum < limit 2
    → length segs ≡ h.e_phnum
    → All (SegmentFits b) segs
    → Holds file h.e_phoff (all_bytes (phdr_bytes b) segs)
    → headers_of file b (ehdr_bytes b h)
      ≡ some (record { is_64 = b; machine = h.e_machine; segments = segs })
unfolding headers_of
headers_of_lem file b h segs m o n l fits at =
    let make = λ (machine : ℕ) (phdrs : List Segment).
      some (let r : ElfHeaders = record { is_64 = b; machine = machine; segments = phdrs } in r) in
    ap
      (λ off. fseek file off >>= λ stream.
        read_segments b (ehdr_phnum b (ehdr_bytes b h)) stream
        >>= make (ehdr_machine (ehdr_bytes b h)))
      (ehdr_phoff_lem b h o)
    ∙ ap
        (λ s. s >>= λ stream.
          read_segments b (ehdr_phnum b (ehdr_bytes b h)) stream
          >>= make (ehdr_machine (ehdr_bytes b h)))
        (fseek-Holds file h.e_phoff (all_bytes (phdr_bytes b) segs) at)
    ∙ ap
        (λ k.
          read_segments b k (all_bytes (phdr_bytes b) segs ++ at.1)
          >>= make (ehdr_machine (ehdr_bytes b h)))
        (ehdr_phnum_lem b h n ∙ sym l)
    ∙ ap (λ s. s >>= make (ehdr_machine (ehdr_bytes b h)))
        (read_segments-all_bytes b segs at.1 fits)
    ∙ ap (λ machine. make machine segs) (ehdr_machine_lem b h m)

read_headers_own :
    (b : Bool) (h : Ehdr) (rest : Text) (seek : ℕ → Option ℕ)
    → seek 0 ≡ some 0
    → read_headers (image_file b h rest seek)
      ≡ headers_of (image_file b h rest seek) b (ehdr_bytes b h)
unfolding read_headers own_header fseek
read_headers_own false h rest seek s = refl
read_headers_own true h rest seek s = rw s

-- The headers of a file that starts with them are read back.
pub read_headers_lem :
    (b : Bool) (h : Ehdr) (rest : Text) (seek : ℕ → Option ℕ) (segs : List Segment)
    → seek 0 ≡ some 0
    → h.e_machine < limit 2
    → h.e_phoff < limit (word b)
    → h.e_phnum < limit 2
    → length segs ≡ h.e_phnum
    → All (SegmentFits b) segs
    → Holds (image_file b h rest seek) h.e_phoff (all_bytes (phdr_bytes b) segs)
    → read_headers (image_file b h rest seek)
      ≡ some (record { is_64 = b; machine = h.e_machine; segments = segs })
read_headers_lem b h rest seek segs s m o n l fits at =
    read_headers_own b h rest seek s
    ∙ headers_of_lem (image_file b h rest seek) b h segs m o n l fits at
