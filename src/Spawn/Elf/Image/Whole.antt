-- ===== src/Spawn/Elf/Image/Whole.antt =====
-- A shared object is read by ports/nacl-spawn/elf_reader.cc as what it says.
use webports.Prelude.{
  ℕ, ◌+◌, ◌-◌, ◌<◌, ◌≤◌, ◌%◌, pos, Bool, true, List, [], ◌∷◌, ◌++◌, length, Option, some, ltb, leb,
  Text, All, ◌≡◌, ◌≢◌, refl, ap, sym, ◌∙◌, arith, map, ne→==,
}
use webports.Spawn.Elf.Fields.{File, ◌>>=◌, drop, to_int, two_31, two_32}
use webports.Spawn.Elf.Headers.{Segment, ElfHeaders, read_headers}
use webports.Spawn.Elf.Dynamic.{Entry, dynamics, read_dynamic}
use webports.Spawn.Elf.Strings.{find_stroff, read_strtab, to_null, name_at, names_at}
use webports.Spawn.Elf.{dynamic, with_strtab, with_dynamics, elf_reader}
use webports.Spawn.Elf.Image.{Ehdr, word, phdr_bytes, all_bytes, SegmentFits}
use webports.Spawn.Elf.Image.Bytes.{limit, fread-append}
use webports.Spawn.Elf.Image.Info.{
  IsEntry, record_all, values, last_or, record_all-straddr, record_all-strsize, record_all-neededs,
}
use webports.Spawn.Elf.Image.Reads.{image_file, Holds, fseek-Holds, read_headers_lem}
use webports.Spawn.Elf.Image.Segments.{
  dynamic_bytes, no_info, read_dynamic_lem, Loads, find_stroff-Loads,
}

-- At each offset stands a name, which a null byte ends.
abbrev pub NamesAt : Text → List ℕ → List Text → Type 0
NamesAt strtab [] [] = Unit
NamesAt strtab (n ∷ offsets) (name ∷ names) =
    ((n < two_31)
      × (n ≤ length strtab)
      × (rest : Text) × (drop n strtab ≡ name ++ 0 ∷ rest)
      × All (λ c. c ≢ 0) name)
    × NamesAt strtab offsets names
NamesAt strtab [] (name ∷ names) = ⊥
NamesAt strtab (n ∷ offsets) [] = ⊥

to_int_small : (n : ℕ) → n < two_31 → to_int n ≡ pos n
unfolding to_int
to_int_small n h =
    let m : n % two_32 ≡ n = omega arith in
    let t : ltb n two_31 ≡ true = ground arith in rw (m, t) refl

to_null-name : (name rest : Text) → All (λ c. c ≢ 0) name → to_null (name ++ 0 ∷ rest) ≡ name
unfolding to_null
to_null-name [] rest h = refl
to_null-name (c ∷ name) rest h = rw (ne→== c 0 h.0) (ap (λ t. c ∷ t) (to_null-name name rest h.1))

names_at-NamesAt :
    (strtab : Text) (offsets : List ℕ) (names : List Text)
    → NamesAt strtab offsets names
    → names_at strtab (map to_int offsets) ≡ some names
unfolding names_at name_at
names_at-NamesAt strtab [] [] h = refl
names_at-NamesAt strtab [] (name ∷ names) h = absurd h
names_at-NamesAt strtab (n ∷ offsets) [] h = absurd h
names_at-NamesAt strtab (n ∷ offsets) (name ∷ names) ((l, i, rest, e, z), h) =
    let t : leb n (length strtab) ≡ true = ground arith in
    let one : name_at strtab (pos n) ≡ some name =
      rw t (ap some (ap to_null e ∙ to_null-name name rest z)) in
    ap (λ a. name_at strtab a >>= λ x. names_at strtab (map to_int offsets) >>= λ xs. some (x ∷ xs))
      (to_int_small n l)
    ∙ ap (λ o. o >>= λ x. names_at strtab (map to_int offsets) >>= λ xs. some (x ∷ xs)) one
    ∙ ap (λ (o : Option (List Text)). o >>= λ xs. some (name ∷ xs))
        (names_at-NamesAt strtab offsets names h)

-- A shared object: the header `h` with the class `b`, the program headers `segments` with the
-- dynamic one and the first one that is loaded, the dynamic entries, the string table and the names
-- of the libraries in it.
pub record IsSharedObject (b : Bool) (h : Ehdr) (rest : Text) (seek : ℕ → Option ℕ)
    (names : List Text) : Type 0 where
  pub segments : List Segment
  pub before : List Segment
  pub after : List Segment
  pub dyn : Segment
  pub before_load : List Segment
  pub after_load : List Segment
  pub load : Segment
  pub entries : List Entry
  pub strtab : Text
  pub seek_start : seek 0 ≡ some 0
  pub machine_fits : h.e_machine < limit 2
  pub phoff_fits : h.e_phoff < limit (word b)
  pub phnum_fits : h.e_phnum < limit 2
  pub count : length segments ≡ h.e_phnum
  pub fits : All (SegmentFits b) segments
  pub headers : Holds (image_file b h rest seek) h.e_phoff (all_bytes (phdr_bytes b) segments)
  pub has_dyn : segments ≡ before ++ dyn ∷ after
  pub none_before : All (λ s. s.p_type ≢ 2) before
  pub none_after : All (λ s. s.p_type ≢ 2) after
  pub is_dynamic : dyn.p_type ≡ 2
  pub has_contents : dyn.p_filesz ≢ 0
  pub entries_fit : All (IsEntry b) entries
  pub has_entries : Holds (image_file b h rest seek) dyn.p_offset (dynamic_bytes b entries)
  pub has_load : segments ≡ before_load ++ load ∷ after_load
  pub first_load : All (λ s. s.p_type ≢ 1) before_load
  pub loads : Loads (last_or 0 (values 5 entries)) load
  pub not_start : last_or 0 (values 5 entries) - load.p_vaddr + load.p_offset ≢ 0
  pub size : length strtab ≡ last_or 0 (map (λ n. n % two_32) (values 10 entries))
  pub has_strtab :
      Holds
        (image_file b h rest seek)
        (last_or 0 (values 5 entries) - load.p_vaddr + load.p_offset)
        strtab
  pub has_names : NamesAt strtab (values 1 entries) names

module _ (b : Bool) (h : Ehdr) (rest : Text) (seek : ℕ → Option ℕ) (names : List Text)
    (o : IsSharedObject b h rest seek names) where
  abbrev file : File
  file = image_file b h rest seek

  abbrev stroff : ℕ
  stroff = last_or 0 (values 5 o.entries) - o.load.p_vaddr + o.load.p_offset

  read_strtab_lem :
      read_strtab file o.segments
        (record_all o.entries no_info).straddr
        (record_all o.entries no_info).strsize
      ≡ some o.strtab
  unfolding read_strtab
  read_strtab_lem =
      let addr : (record_all o.entries no_info).straddr ≡ last_or 0 (values 5 o.entries) =
        record_all-straddr o.entries no_info in
      let at : find_stroff (record_all o.entries no_info).straddr o.segments ≡ stroff =
        ap (λ a. find_stroff a o.segments) addr
        ∙ ap (find_stroff (last_or 0 (values 5 o.entries))) o.has_load
        ∙ find_stroff-Loads (last_or 0 (values 5 o.entries)) o.before_load o.after_load o.load
            o.first_load o.loads in
      let length_lem : length o.strtab ≡ (record_all o.entries no_info).strsize =
        o.size ∙ sym (record_all-strsize o.entries no_info) in
      let n = ne→== stroff 0 o.not_start in
      let read =
        fread-append (record_all o.entries no_info).strsize o.strtab o.has_strtab.1 length_lem in
      rw (at, n, fseek-Holds file stroff o.strtab o.has_strtab, read) refl

  -- If a file is a shared object, the reader finds its machine and the names of the libraries that
  -- it needs, in order: for both classes, any order of segments and entries, and any other bytes
  -- between these. There is one dynamic segment, and the string table is in the first segment that
  -- is loaded and not at the start of the file.
  pub elf_reader-IsSharedObject :
      elf_reader (some (image_file b h rest seek)) ≡ dynamic h.e_machine names
  unfolding elf_reader with_dynamics with_strtab
  elf_reader-IsSharedObject =
      let info = record_all o.entries no_info in
      let headers : ElfHeaders = record {
        is_64 = b;
        machine = h.e_machine;
        segments = o.segments;
      } in
      let first : read_headers file ≡ some headers =
        read_headers_lem b h rest seek o.segments o.seek_start o.machine_fits o.phoff_fits
          o.phnum_fits o.count o.fits o.headers in
      let second : read_dynamic file b o.segments ≡ dynamics info =
        ap (read_dynamic file b) o.has_dyn
        ∙ read_dynamic_lem file b o.before o.after o.dyn o.entries o.none_before o.none_after
            o.is_dynamic o.has_contents o.entries_fit o.has_entries in
      let third : names_at o.strtab info.neededs ≡ some names =
        ap (names_at o.strtab) (record_all-neededs o.entries no_info)
        ∙ names_at-NamesAt o.strtab (values 1 o.entries) names o.has_names in
      rw (first, elf_reader)
        (ap (with_dynamics file headers) second
          ∙ ap (with_strtab h.e_machine info.neededs) read_strtab_lem
          ∙ rw (third, with_strtab) refl)
