-- ===== src/Spawn/Elf/Strings.antt =====
-- `ElfReader::ReadStrtab` of ports/nacl-spawn/elf_reader.cc, and the names of the libraries.
use webports.Prelude.{
  ℕ, ◌+◌, ◌-◌, ◌%◌, ℤ, pos, negsuc, Bool, ◌&&◌, List, [], ◌∷◌, length, Option, none, some, ◌==◌,
  ltb, leb, if◌then◌else◌, Text,
}
use webports.Spawn.Elf.Fields.{File, ◌>>=◌, fread, fseek, drop, two_64}
use webports.Spawn.Elf.Headers.{Segment}

-- The segment is a `PT_LOAD` that contains the address; the end of the segment may wrap.
unfoldable pub contains : ℕ → Segment → Bool
contains straddr phdr =
    (phdr.p_type == 1)
    && leb phdr.p_vaddr straddr
    && ltb straddr ((phdr.p_vaddr + phdr.p_filesz) % two_64)

-- The loop that turns an address into an offset of the file: 0 stands for none.
unfoldable pub find_stroff : ℕ → List Segment → ℕ
unfolding contains
find_stroff straddr [] = 0
find_stroff straddr (phdr ∷ phdrs) =
    let later = find_stroff straddr phdrs in
    if contains straddr phdr then (straddr - phdr.p_vaddr + phdr.p_offset) % two_64 else later

-- `none` is each failure of `ReadStrtab`.
unfoldable pub read_strtab : File → List Segment → ℕ → ℕ → Option Text
unfolding find_stroff fseek fread
read_strtab file phdrs straddr strsize = if find_stroff straddr phdrs == 0 then none else do
  stream ← fseek file (find_stroff straddr phdrs)
  (strtab, rest) ← fread strsize stream
  some strtab

-- The text up to the first null byte.
unfoldable pub to_null : Text → Text
to_null [] = []
to_null (c ∷ text) = let rest = to_null text in if c == 0 then [] else c ∷ rest

-- The text at an offset of the string table, whose bytes are followed by a null byte; `none` is a
-- read outside.
unfoldable pub name_at : Text → ℤ → Option Text
unfolding to_null drop
name_at strtab (negsuc n) = none
name_at strtab (pos n) = if leb n (length strtab) then some (to_null (drop n strtab)) else none

-- The loop that fills `neededs_`.
unfoldable pub names_at : Text → List ℤ → Option (List Text)
unfolding name_at
names_at strtab [] = some []
names_at strtab (n ∷ neededs) = do
  name ← name_at strtab n
  names ← names_at strtab neededs
  some (name ∷ names)
