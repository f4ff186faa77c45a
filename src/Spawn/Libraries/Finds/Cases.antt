-- ===== src/Spawn/Libraries/Finds/Cases.antt =====
-- The branches of the calls in ports/nacl-spawn/library_dependencies.cc.
use webports.Prelude.{
  ℕ, suc, ◌<◌, Bool, true, false, List, [], ◌∷◌, length, none, some, Text, ◌≡◌, arith, Among,
}
use webports.Prelude.Sets.{has, insert, length-insert}
use webports.Spawn.Paths.{find_in_paths}
use webports.Spawn.Elf.{elf_reader}
use webports.Spawn.Libraries.{
  Disk, is_loader, known, Outcome, found, failed, then_with, with_machine, static_binary,
  find_needed, visit, find_deps, enoexec, enoent,
}

pub with_machine-known :
    (machine : ℕ) (rest : Outcome) → known machine ≡ true → with_machine false machine rest ≡ rest
unfolding with_machine
with_machine-known machine rest d = rw d

pub with_machine-unknown :
    (wants_arch : Bool) (machine : ℕ) (rest : Outcome)
    → known machine ≡ false
    → with_machine wants_arch machine rest ≡ failed (some enoexec)
unfolding with_machine
with_machine-unknown wants_arch machine rest d = rw d

pub static_binary-failed :
    (deps : List Text) → 1 < length deps → static_binary deps ≡ failed (some enoexec)
unfolding static_binary
static_binary-failed deps h = ground arith

Among-length : (a : Text) (xs : List Text) → Among a xs → 0 < length xs
Among-length a [] m = absurd m
Among-length a (x ∷ xs) m = omega arith

pub two_items :
    (path root : Text) (s : List Text)
    → has path s ≡ false
    → Among root s
    → 1 < length (insert path s)
two_items path root s h a = omega (arith, length-insert path s h, Among-length root s a)

module _ (disk : Disk) (paths : List Text) (fuel : ℕ) (wants_arch : Bool) (path : Text)
    (s : List Text) where
  pub find_deps-has :
      has path s ≡ true → find_deps disk paths (suc fuel) wants_arch path s ≡ found none s
  unfolding find_deps
  find_deps-has h = rw (h, find_deps)

  pub find_deps-new :
      has path s ≡ false
      → find_deps disk paths (suc fuel) wants_arch path s
        ≡ visit disk paths
            (find_deps disk paths fuel false)
            wants_arch
            (elf_reader (disk.fopen path))
            (insert path s)
  unfolding find_deps
  find_deps-new h = rw (h, find_deps)

-- The cases of the loop over the names.
module _ (disk : Disk) (paths : List Text) (find : Text → List Text → Outcome) where
  pub find_needed-loader :
      (name : Text) (names s : List Text)
      → is_loader name ≡ true
      → find_needed disk paths find (name ∷ names) s ≡ find_needed disk paths find names s
  unfolding find_needed
  find_needed-loader name names s l = rw (l, find_needed)

  pub find_needed-none :
      (name : Text) (names s : List Text)
      → is_loader name ≡ false
      → find_in_paths disk.access name paths ≡ none
      → find_needed disk paths find (name ∷ names) s ≡ failed (some enoent)
  unfolding find_needed
  find_needed-none name names s l f = rw (l, f, find_needed)

  pub find_needed-some :
      (name path : Text) (names s : List Text)
      → is_loader name ≡ false
      → find_in_paths disk.access name paths ≡ some path
      → find_needed disk paths find (name ∷ names) s
        ≡ then_with (find path s) (find_needed disk paths find names)
  unfolding find_needed
  find_needed-some name path names s l f = rw (l, f, find_needed)
