-- ===== src/Spawn/Elf/Image/Segments.antt =====
-- The segments of a shared object, as ports/nacl-spawn/elf_reader.cc reads them.
use webports.Prelude.{
  ℕ, ◌+◌, ◌-◌, ◌<◌, ◌≤◌, ◌%◌, Bool, true, false, List, [], ◌∷◌, ◌++◌, length, length-append, ◌==◌,
  Text, All, ◌≡◌, ◌≢◌, refl, ap, ◌∙◌, arith, ne→==, append_assoc,
}
use webports.Spawn.Elf.Fields.{File, two_64}
use webports.Spawn.Elf.Headers.{Segment}
use webports.Spawn.Elf.Dynamic.{
  Entry, DynamicInfo, Dynamics, dynamics, read_entries, read_dynamic_segment, read_segments_from,
  read_dynamic,
}
use webports.Spawn.Elf.Strings.{contains, find_stroff}
use webports.Spawn.Elf.Image.{dyn_bytes, all_bytes}
use webports.Spawn.Elf.Image.Info.{IsEntry, null_entry, record_all, read_entries-all_bytes}
use webports.Spawn.Elf.Image.Reads.{Holds, fseek-Holds}

length-all_bytes :
    (b : Bool) (entries : List Entry) → length entries ≤ length (all_bytes (dyn_bytes b) entries)
length-all_bytes b [] = omega arith
length-all_bytes false (d ∷ entries) = omega (arith, length-all_bytes false entries)
length-all_bytes true (d ∷ entries) = omega (arith, length-all_bytes true entries)

abbrev pub no_info : DynamicInfo
no_info = record { straddr = 0; strsize = 0; neededs = [] }

-- The bytes of the dynamic entries, with the one that ends them.
abbrev pub dynamic_bytes : Bool → List Entry → Text
dynamic_bytes b entries = all_bytes (dyn_bytes b) entries ++ dyn_bytes b null_entry

module _ (file : File) (b : Bool) where
  before_dynamic :
      (before rest : List Segment) (info : DynamicInfo)
      → All (λ s. s.p_type ≢ 2) before
      → read_segments_from file b (before ++ rest) false info
        ≡ read_segments_from file b rest false info
  unfolding read_segments_from
  before_dynamic [] rest info h = refl
  before_dynamic (s ∷ before) rest info h =
      let d = ne→== s.p_type 2 h.0 in
      rw (d, read_segments_from) (before_dynamic before rest info h.1)

  after_dynamic :
      (after : List Segment) (info : DynamicInfo)
      → All (λ s. s.p_type ≢ 2) after
      → read_segments_from file b after true info ≡ dynamics info
  unfolding read_segments_from
  after_dynamic [] info h = refl
  after_dynamic (s ∷ after) info h =
      let d = ne→== s.p_type 2 h.0 in rw (d, read_segments_from) (after_dynamic after info h.1)

  dynamic_segment :
      (s : Segment) (entries : List Entry) (later : DynamicInfo → Dynamics) (info : DynamicInfo)
      → s.p_filesz ≢ 0
      → All (IsEntry b) entries
      → Holds file s.p_offset (dynamic_bytes b entries)
      → read_dynamic_segment file b s later info ≡ later (record_all entries info)
  unfolding read_dynamic_segment
  dynamic_segment s entries later info n h at =
      let items = all_bytes (dyn_bytes b) entries in
      let end = dyn_bytes b null_entry in
      let stream = (items ++ end) ++ at.1 in
      let d = ne→== s.p_filesz 0 n in
      let e = fseek-Holds file s.p_offset (items ++ end) at in
      let room : length entries < length stream + 1 = omega (
        arith,
        length-all_bytes b entries,
        length-append items end,
        length-append (items ++ end) at.1,
      ) in
      rw (d, e, read_dynamic_segment)
        (ap (λ t. read_entries b later (length stream + 1) t info) (append_assoc items end at.1)
          ∙ read_entries-all_bytes b later entries (length stream + 1) at.1 info h room)

  pub read_dynamic_lem :
      (before after : List Segment) (s : Segment) (entries : List Entry)
      → All (λ t. t.p_type ≢ 2) before
      → All (λ t. t.p_type ≢ 2) after
      → s.p_type ≡ 2
      → s.p_filesz ≢ 0
      → All (IsEntry b) entries
      → Holds file s.p_offset (dynamic_bytes b entries)
      → read_dynamic file b (before ++ s ∷ after) ≡ dynamics (record_all entries no_info)
  unfolding read_dynamic read_segments_from
  read_dynamic_lem before after s entries p q t n h at =
      let d : (s.p_type == 2) ≡ true = ap (λ x. x == 2) t in
      before_dynamic before (s ∷ after) no_info p
      ∙ rw (d, read_segments_from)
          (dynamic_segment s entries (read_segments_from file b after true) no_info n h at)
      ∙ after_dynamic after (record_all entries no_info) q

-- The first segment that is loaded has the address, and no number wraps.
abbrev pub Loads : ℕ → Segment → Type 0
Loads addr s =
    (s.p_type ≡ 1)
    × (s.p_vaddr ≤ addr)
    × (addr < s.p_vaddr + s.p_filesz)
    × (s.p_vaddr + s.p_filesz < two_64)
    × (addr - s.p_vaddr + s.p_offset < two_64)

contains-Loads : (addr : ℕ) (s : Segment) → Loads addr s → contains addr s ≡ true
unfolding contains
contains-Loads addr s (t, l, u, w, o) =
    let m : (s.p_vaddr + s.p_filesz) % two_64 ≡ s.p_vaddr + s.p_filesz = grind arith in
    rw m (ground arith)

not_contains : (addr : ℕ) (s : Segment) → s.p_type ≢ 1 → contains addr s ≡ false
unfolding contains
not_contains addr s n = rw (ne→== s.p_type 1 n)

pub find_stroff-Loads :
    (addr : ℕ) (before after : List Segment) (s : Segment)
    → All (λ t. t.p_type ≢ 1) before
    → Loads addr s
    → find_stroff addr (before ++ s ∷ after) ≡ addr - s.p_vaddr + s.p_offset
unfolding find_stroff
find_stroff-Loads addr [] after s h l =
    let m : (addr - s.p_vaddr + s.p_offset) % two_64 ≡ addr - s.p_vaddr + s.p_offset =
      grind (arith, l.4) in
    rw (contains-Loads addr s l) m
find_stroff-Loads addr (t ∷ before) after s h l =
    rw (not_contains addr t h.0) (find_stroff-Loads addr before after s h.1 l)
