-- ===== src/Spawn/Elf/Image/Info.antt =====
-- The dynamic entries of an ELF file, as ports/nacl-spawn/elf_reader.cc reads them.
use webports.Prelude.{
  ℕ, zero, suc, ◌<◌, ◌%◌, Bool, true, false, List, [], ◌∷◌, ◌++◌, length, ◌==◌, if◌then◌else◌, Text,
  All, ◌≡◌, ◌≢◌, refl, ap, sym, ◌∙◌, arith, append_assoc, append-nil, ne→==, map,
}
use webports.Spawn.Elf.Fields.{to_int, two_32}
use webports.Spawn.Elf.Dynamic.{
  Entry, entry, dyn_size, DynamicInfo, Dynamics, record_entry, read_entries,
}
use webports.Spawn.Elf.Image.{dyn_bytes, all_bytes, EntryFits}
use webports.Spawn.Elf.Image.Bytes.{fread-append}
use webports.Spawn.Elf.Image.Entries.{entry-dyn_bytes}

-- An entry that does not end the list.
abbrev pub IsEntry : Bool → Entry → Type 0
IsEntry is_64 d = EntryFits is_64 d × (d.d_tag ≢ 0)

abbrev pub null_entry : Entry
null_entry = record { d_tag = 0; d_val = 0 }

abbrev pub record_all : List Entry → DynamicInfo → DynamicInfo
record_all [] info = info
record_all (d ∷ entries) info = record_all entries (record_entry d info)

dyn_size_lem : (is_64 : Bool) (d : Entry) → length (dyn_bytes is_64 d) ≡ dyn_size is_64
dyn_size_lem false d = refl
dyn_size_lem true d = refl

null_fits : (is_64 : Bool) → EntryFits is_64 null_entry
null_fits false = (omega arith, omega arith)
null_fits true = (omega arith, omega arith)

module _ (is_64 : Bool) (later : DynamicInfo → Dynamics) where
  read_entries-null :
      (fuel : ℕ) (r : Text) (info : DynamicInfo)
      → read_entries is_64 later (suc fuel) (dyn_bytes is_64 null_entry ++ r) info ≡ later info
  unfolding read_entries
  read_entries-null fuel r info =
      let e =
        fread-append (dyn_size is_64) (dyn_bytes is_64 null_entry) r
          (dyn_size_lem is_64 null_entry) in
      let t : ((entry is_64 (dyn_bytes is_64 null_entry)).d_tag == 0) ≡ true =
        ap (λ (x : Entry). x.d_tag == 0) (entry-dyn_bytes is_64 null_entry (null_fits is_64)) in
      rw (e, t, read_entries)

  read_entries-cons :
      (d : Entry) (fuel : ℕ) (r : Text) (info : DynamicInfo)
      → IsEntry is_64 d
      → read_entries is_64 later (suc fuel) (dyn_bytes is_64 d ++ r) info
        ≡ read_entries is_64 later fuel r (record_entry d info)
  unfolding read_entries
  read_entries-cons d fuel r info h =
      let e = fread-append (dyn_size is_64) (dyn_bytes is_64 d) r (dyn_size_lem is_64 d) in
      let x = entry-dyn_bytes is_64 d h.0 in
      let t : ((entry is_64 (dyn_bytes is_64 d)).d_tag == 0) ≡ false =
        ap (λ (y : Entry). y.d_tag == 0) x ∙ ne→== d.d_tag 0 h.1 in
      rw (e, t, read_entries) (ap (λ y. read_entries is_64 later fuel r (record_entry y info)) x)

  -- The loop over the entries reads them in order, up to the one that ends them.
  pub read_entries-all_bytes :
      (entries : List Entry) (fuel : ℕ) (r : Text) (info : DynamicInfo)
      → All (IsEntry is_64) entries
      → length entries < fuel
      → read_entries is_64 later fuel
          (all_bytes (dyn_bytes is_64) entries ++ (dyn_bytes is_64 null_entry ++ r))
          info
        ≡ later (record_all entries info)
  read_entries-all_bytes entries zero r info h l = absurd (omega arith)
  read_entries-all_bytes [] (suc fuel) r info h l = read_entries-null fuel r info
  read_entries-all_bytes (d ∷ entries) (suc fuel) r info h l =
      let end = dyn_bytes is_64 null_entry ++ r in
      let rest = all_bytes (dyn_bytes is_64) entries in
      ap (λ s. read_entries is_64 later (suc fuel) s info)
        (append_assoc (dyn_bytes is_64 d) rest end)
      ∙ read_entries-cons d fuel (rest ++ end) info h.0
      ∙ read_entries-all_bytes entries fuel r (record_entry d info) h.1 (omega arith)

-- The values of the entries with a tag, in order.
abbrev pub values : ℕ → List Entry → List ℕ
values tag [] = []
values tag (d ∷ entries) =
    if d.d_tag == tag then d.d_val ∷ values tag entries else values tag entries

abbrev pub last_or {ℓ} : {A : Type ℓ} → A → List A → A
last_or x [] = x
last_or x (y ∷ ys) = last_or y ys

record_entry-straddr :
    (d : Entry) (i : DynamicInfo)
    → (record_entry d i).straddr ≡ (if d.d_tag == 5 then d.d_val else i.straddr)
unfolding record_entry
record_entry-straddr d i = ground arith

record_entry-strsize :
    (d : Entry) (i : DynamicInfo)
    → (record_entry d i).strsize ≡ (if d.d_tag == 10 then d.d_val % two_32 else i.strsize)
unfolding record_entry
record_entry-strsize d i = ground arith

record_entry-neededs :
    (d : Entry) (i : DynamicInfo)
    → (record_entry d i).neededs
      ≡ (if d.d_tag == 1 then i.neededs ++ to_int d.d_val ∷ [] else i.neededs)
unfolding record_entry
record_entry-neededs d i = ground arith

pub record_all-straddr :
    (entries : List Entry) (i : DynamicInfo)
    → (record_all entries i).straddr ≡ last_or i.straddr (values 5 entries)
record_all-straddr [] i = refl
record_all-straddr (d ∷ entries) i =
    record_all-straddr entries (record_entry d i)
    ∙ ap (λ x. last_or x (values 5 entries)) (record_entry-straddr d i)
    ∙ elim (d.d_tag == 5)
        as (λ b.
          last_or (if b then d.d_val else i.straddr) (values 5 entries)
          ≡ last_or i.straddr (if b then d.d_val ∷ values 5 entries else values 5 entries)) [
            | true ↦ refl
            | false ↦ refl
          ]

pub record_all-strsize :
    (entries : List Entry) (i : DynamicInfo)
    → (record_all entries i).strsize ≡ last_or i.strsize (map (λ n. n % two_32) (values 10 entries))
record_all-strsize [] i = refl
record_all-strsize (d ∷ entries) i =
    record_all-strsize entries (record_entry d i)
    ∙ ap (λ x. last_or x (map (λ n. n % two_32) (values 10 entries))) (record_entry-strsize d i)
    ∙ elim (d.d_tag == 10)
        as (λ b.
          last_or (if b then d.d_val % two_32 else i.strsize)
            (map (λ n. n % two_32) (values 10 entries))
          ≡ last_or i.strsize (
              map (λ n. n % two_32)
                (if b then d.d_val ∷ values 10 entries else values 10 entries))) [
                  | true ↦ refl
                  | false ↦ refl
                ]

pub record_all-neededs :
    (entries : List Entry) (i : DynamicInfo)
    → (record_all entries i).neededs ≡ i.neededs ++ map to_int (values 1 entries)
record_all-neededs [] i = sym (append-nil i.neededs)
record_all-neededs (d ∷ entries) i =
    record_all-neededs entries (record_entry d i)
    ∙ ap (λ x. x ++ map to_int (values 1 entries)) (record_entry-neededs d i)
    ∙ elim (d.d_tag == 1)
        as (λ b.
          (if b then i.neededs ++ to_int d.d_val ∷ [] else i.neededs)
            ++ map to_int (values 1 entries)
          ≡ i.neededs ++ map to_int (if b then d.d_val ∷ values 1 entries else values 1 entries)) [
            | true ↦ append_assoc i.neededs (to_int d.d_val ∷ []) (map to_int (values 1 entries))
            | false ↦ refl
          ]
