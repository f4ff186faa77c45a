-- ===== src/Spawn/Elf/Ends.antt =====
-- The loops of ports/nacl-spawn/elf_reader.cc end.
use webports.Prelude.{
  ℕ, zero, suc, ◌+◌, ◌<◌, ℤ, Bool, true, false, List, [], ◌∷◌, length, Option, none, some, ◌==◌,
  Text, ◌≡◌, ◌≢◌, refl, arith, inl, inr, Bool-cases, Option-cases,
}
use webports.Spawn.Elf.Fields.{File, fread, fseek, put_first}
use webports.Spawn.Elf.Headers.{Segment, ElfHeaders, read_headers}
use webports.Spawn.Elf.Dynamic.{
  Dynamics, dynamics, no_segment, bad_segment, DynamicInfo, dyn_size, entry, record_entry,
  read_entries, read_dynamic_segment, read_segments_from, read_dynamic,
}
use webports.Spawn.Elf.Strings.{read_strtab, names_at}
use webports.Spawn.Elf.{wild, dynamic, no_fuel, elf_reader, with_strtab, with_dynamics}

-- The stream after a read is shorter by the bytes read.
fread-length :
    (n : ℕ) (stream : Text) (bytes rest : Text)
    → fread n stream ≡ some (bytes, rest)
    → n + length rest ≡ length stream
unfolding fread
fread-length zero stream bytes rest h = ground arith
fread-length (suc n) [] bytes rest h = cc
fread-length (suc n) (b ∷ stream) bytes rest h = elim (Option-cases (fread n stream)) [
  | inl e ↦ let g : put_first b none ≡ some (bytes, rest) = rw e at h in absurd (cc)
  | inr ((bs, r), e) ↦
      let g : put_first b (some (bs, r)) ≡ some (bytes, rest) = rw e at h in
      let k = fread-length n stream bs r e in ground arith
]

read_entries_ends :
    (is_64 : Bool) (later : DynamicInfo → Dynamics)
    → ((info : DynamicInfo) → later info ≢ Dynamics.no_fuel)
    → (fuel : ℕ) (stream : Text) (info : DynamicInfo) → length stream < fuel
    → read_entries is_64 later fuel stream info ≢ Dynamics.no_fuel
unfolding read_entries
read_entries_ends is_64 later h zero stream info l = absurd (omega arith)
read_entries_ends is_64 later h (suc fuel) stream info l =
    elim (Option-cases (fread (dyn_size is_64) stream)) [
      | inl e ↦ rw (e, read_entries) (λ q. cc)
      | inr ((bytes, rest), e) ↦
          let k = fread-length (dyn_size is_64) stream bytes rest e in
          elim (Bool-cases ((entry is_64 bytes).d_tag == 0)) [
            | inl d ↦ rw (e, d, read_entries) (h info)
            | inr d ↦
                rw (e, d, read_entries)
                  (read_entries_ends is_64 later h fuel rest (record_entry (entry is_64 bytes) info)
                    (elim is_64
                        as (λ b. dyn_size b + length rest ≡ length stream → length rest < fuel) [
                          | true ↦ λ q. omega arith
                          | false ↦ λ q. omega arith
                        ]
                      k))
          ]
    ]

read_dynamic_segment_ends :
    (file : File) (is_64 : Bool) (phdr : Segment) (later : DynamicInfo → Dynamics)
    → ((info : DynamicInfo) → later info ≢ Dynamics.no_fuel)
    → (info : DynamicInfo) → read_dynamic_segment file is_64 phdr later info ≢ Dynamics.no_fuel
unfolding read_dynamic_segment
read_dynamic_segment_ends file is_64 phdr later h info = elim (Bool-cases (phdr.p_filesz == 0)) [
  | inl d ↦ rw (d, read_dynamic_segment) (λ q. cc)
  | inr d ↦ elim (Option-cases (fseek file phdr.p_offset)) [
    | inl e ↦ rw (e, d, read_dynamic_segment) (λ q. cc)
    | inr (stream, e) ↦
        rw (e, d, read_dynamic_segment)
          (read_entries_ends is_64 later h (length stream + 1) stream info (omega arith))
  ]
]

read_segments_from_ends :
    (file : File) (is_64 : Bool) (phdrs : List Segment) (seen : Bool) (info : DynamicInfo)
    → read_segments_from file is_64 phdrs seen info ≢ Dynamics.no_fuel
unfolding read_segments_from
read_segments_from_ends file is_64 [] true info = λ q. cc
read_segments_from_ends file is_64 [] false info = λ q. cc
read_segments_from_ends file is_64 (phdr ∷ phdrs) seen info = elim (Bool-cases (phdr.p_type == 2)) [
  | inl d ↦
      rw (d, read_segments_from)
        (read_dynamic_segment_ends file is_64 phdr (read_segments_from file is_64 phdrs true)
          (read_segments_from_ends file is_64 phdrs true) info)
  | inr d ↦ rw (d, read_segments_from) (read_segments_from_ends file is_64 phdrs seen info)
]

with_strtab_ends :
    (machine : ℕ) (neededs : List ℤ) (strtab : Option Text)
    → with_strtab machine neededs strtab ≢ no_fuel
unfolding with_strtab
with_strtab_ends machine neededs none = λ q. cc
with_strtab_ends machine neededs (some strtab) =
    elim (names_at strtab neededs)
      as (λ o. (elim o [ none ↦ wild | some names ↦ dynamic machine names ]) ≢ no_fuel) [
        | none ↦ λ q. cc
        | some names ↦ λ q. cc
      ]

with_dynamics_ends :
    (file : File) (headers : ElfHeaders) (d : Dynamics)
    → d ≢ Dynamics.no_fuel
    → with_dynamics file headers d ≢ no_fuel
unfolding with_dynamics
with_dynamics_ends file headers (dynamics info) h =
    with_strtab_ends headers.machine info.neededs
      (read_strtab file headers.segments info.straddr info.strsize)
with_dynamics_ends file headers no_segment h = λ q. cc
with_dynamics_ends file headers bad_segment h = λ q. cc
with_dynamics_ends file headers Dynamics.no_fuel h = absurd (h refl)

-- The constructor ends on every file: the fuel for the entries, one more than the bytes that are
-- left, is enough.
pub elf_reader_ends : (file : Option File) → elf_reader file ≢ no_fuel
unfolding elf_reader read_dynamic
elf_reader_ends none = λ q. cc
elf_reader_ends (some file) = elim (Option-cases (read_headers file)) [
  | inl e ↦ rw (e, elf_reader) (λ q. cc)
  | inr (headers, e) ↦
      rw (e, elf_reader)
        (with_dynamics_ends file headers (read_dynamic file headers.is_64 headers.segments) (
          read_segments_from_ends file headers.is_64 headers.segments false
            (record { straddr = 0; strsize = 0; neededs = [] })))
]
