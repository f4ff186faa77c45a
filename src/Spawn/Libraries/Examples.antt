-- ===== src/Spawn/Libraries/Examples.antt =====
-- The theorems on libraries, on two shared objects that need each other.
use webports.Prelude.{
  ℕ, Bool, true, false, List, [], ◌∷◌, Option, none, some, Text, codes, eq_text, if◌then◌else◌, ◌≡◌,
  ◌≢◌, ◌↔◌, inl, inr, refl, Among, eq_text_iff, less,
}
use webports.Prelude.Sets.{IsSorted}
use webports.Spawn.Elf.{static, elf_reader}
use webports.Spawn.Elf.Examples.{small_file, elf_reader-small_b}
use webports.Spawn.Libraries.{Disk, found, exhausted, find_deps}
use webports.Spawn.Libraries.Needs.{Reach, here, Faulty}
use webports.Spawn.Libraries.Finds.{Lists}
use webports.Spawn.Libraries.Result.{
  find_deps_ends, find_deps-Reach, find_deps-fine, find_deps-Faults, find_deps-IsSorted,
}

-- "/lib/a" needs "b" and "/lib/b" needs "a".
abbrev lib_a : Text
lib_a = codes "/lib/a"

abbrev lib_b : Text
lib_b = codes "/lib/b"

abbrev two_files : List Text
two_files = lib_a ∷ lib_b ∷ []

abbrev cycle : Disk
cycle = record {
  access = λ path. if eq_text path lib_a then true else eq_text path lib_b;
  fopen = λ path.
      if eq_text path lib_a
      then some (small_file b'b')
      else if eq_text path lib_b
      then some (small_file b'a')
      else none;
  ld_library_path = none;
}

lists_lem :
    (path : Text) (a b : Bool)
    → eq_text path lib_a ≡ a
    → eq_text path lib_b ≡ b
    → (if a then true else b) ≡ true
    → Among path two_files
lists_lem path true b p q h = inl ((eq_text_iff path lib_a).0 p)
lists_lem path false true p q h = inr (inl ((eq_text_iff path lib_b).0 q))
lists_lem path false false p q h = absurd (cc)

cycle-Lists : Lists cycle two_files
cycle-Lists path h = lists_lem path (eq_text path lib_a) (eq_text path lib_b) refl refl h

abbrev lib_paths : List Text
lib_paths = codes "/lib" ∷ []

not_static : (machine : ℕ) → elf_reader (cycle.fopen lib_a) ≢ static machine
unfolding eq_text
not_static machine e = let d = elf_reader-small_b in absurd (cc)

cycle-found : find_deps cycle lib_paths 4 true lib_a [] ≡ found (some (codes "x86-32")) two_files
unfolding find_deps less
cycle-found = refl

-- Here no file can be opened.
abbrev no_elf : Disk
no_elf = record { access = λ path. false; fopen = λ path. none; ld_library_path = none }

no_elf-failed :
    (arch : Option Text) (deps : List Text)
    → find_deps no_elf lib_paths 2 true lib_a [] ≢ found arch deps
unfolding find_deps
no_elf-failed arch deps e = cc

no_elf_ne_static : (machine : ℕ) → elf_reader none ≢ static machine
unfolding elf_reader
no_elf_ne_static machine e = cc

find_deps_ends_example : find_deps cycle lib_paths 4 true lib_a [] ≢ exhausted
find_deps_ends_example = find_deps_ends cycle lib_paths lib_a two_files cycle-Lists

find_deps-Reach_example : Among lib_b two_files ↔ Reach cycle lib_paths lib_a lib_b
find_deps-Reach_example =
    find_deps-Reach cycle lib_paths lib_a two_files cycle-Lists not_static (some (codes "x86-32"))
      two_files cycle-found lib_b

find_deps-Faults_example : (z : Text) × Reach no_elf lib_paths lib_a z × Faulty no_elf lib_paths z
find_deps-Faults_example =
    find_deps-Faults no_elf lib_paths lib_a [] (λ path e. absurd (cc)) no_elf_ne_static
      no_elf-failed

find_deps-fine_example : ¬ Faulty cycle lib_paths lib_a
find_deps-fine_example =
    find_deps-fine cycle lib_paths lib_a two_files cycle-Lists not_static (some (codes "x86-32"))
      two_files cycle-found lib_a here

find_deps-IsSorted_example : IsSorted two_files
find_deps-IsSorted_example =
    find_deps-IsSorted cycle lib_paths lib_a two_files cycle-Lists not_static
      (some (codes "x86-32")) two_files cycle-found
