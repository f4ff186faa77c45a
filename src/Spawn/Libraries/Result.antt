-- ===== src/Spawn/Libraries/Result.antt =====
-- What `find_arch_and_library_deps` of ports/nacl-spawn/library_dependencies.cc returns.
use webports.Prelude.{
  ℕ, suc, ◌+◌, Bool, true, List, [], length, Option, none, some, Text, ◌≡◌, ◌≢◌, ◌↔◌, inl, inr,
  refl, sym, ap, subst, ◌∙◌, arith, Among,
}
use webports.Prelude.Sets.{IsSorted}
use webports.Spawn.Elf.{static, elf_reader}
use webports.Spawn.Libraries.{
  Disk, known, arch_of, named, Outcome, found, failed, out_of_bounds, exhausted, static_binary,
  visit, find_deps, with_loaders, find_arch_and_library_deps,
}
use webports.Spawn.Libraries.Needs.{Reach, Faulty}
use webports.Spawn.Libraries.Extends.{Done-Faulty}
use webports.Spawn.Libraries.Finds.{Lists, Ends, Faults}
use webports.Spawn.Libraries.Closure.{
  first_lem, first-static, complete, returned, static-cases, static_ends, with_machine-named,
}

module _ (disk : Disk) (paths : List Text) (root : Text) where
  not_found-Faults :
      (o : Outcome)
      → ((arch : Option Text) (deps : List Text) → o ≢ found arch deps)
      → Ends disk paths root [] (Among root) o
      → Faults disk paths root
  not_found-Faults (found arch deps) f h = absurd (f arch deps refl)
  not_found-Faults (failed errno) f h = h
  not_found-Faults out_of_bounds f h = h
  not_found-Faults exhausted f h = absurd h

arch_of-known : (machine : ℕ) (arch : Text) → arch_of machine ≡ some arch → known machine ≡ true
unfolding known arch_of
arch_of-known machine arch h = ground arith

-- The search of the libraries ends on each file system with finitely many files that can be read,
-- also where libraries need one another in a cycle: the depth of the calls is below the number of
-- those files and two.
pub find_deps_ends :
    (disk : Disk) (paths : List Text) (root : Text) (files : List Text)
    → Lists disk files
    → find_deps disk paths (length files + 2) true root [] ≢ exhausted
find_deps_ends disk paths root files listed e = elim (static-cases (elf_reader (disk.fopen root))) [
  | inl (machine, s) ↦
      static_ends machine (sym (first-static disk paths root files listed machine s) ∙ e)
  | inr n ↦
      subst (Ends disk paths root [] (Among root)) e (first_lem disk paths root files listed n)
]

-- When the search for a file that is no static program returns true, on a file system with finitely
-- many files that can be read, the set has exactly the file itself and what it needs, directly or
-- through other libraries.
pub find_deps-Reach :
    (disk : Disk) (paths : List Text) (root : Text) (files : List Text)
    → Lists disk files
    → ((machine : ℕ) → elf_reader (disk.fopen root) ≢ static machine)
    → (arch : Option Text) (deps : List Text)
    → find_deps disk paths (length files + 2) true root [] ≡ found arch deps
    → (z : Text) → Among z deps ↔ Reach disk paths root z
find_deps-Reach disk paths root files listed n arch deps e z =
    let (x, a) = returned disk paths root files listed arch deps n e in
    (
      λ m. elim (x.sound z m) [ inl none_yet ↦ absurd none_yet | inr r ↦ r ],
      λ r. complete disk paths root files listed deps x a r,
    )

-- A file at fault is reached when the search returns false or reads outside a string table, for a
-- file that is no static program, on a file system with finitely many files that can be read.
pub find_deps-Faults :
    (disk : Disk) (paths : List Text) (root : Text) (files : List Text)
    → Lists disk files
    → ((machine : ℕ) → elf_reader (disk.fopen root) ≢ static machine)
    → ((arch : Option Text) (deps : List Text)
        → find_deps disk paths (length files + 2) true root [] ≢ found arch deps)
    → (z : Text) × Reach disk paths root z × Faulty disk paths z
find_deps-Faults disk paths root files listed n f =
    not_found-Faults disk paths root (find_deps disk paths (length files + 2) true root []) f
      (first_lem disk paths root files listed n)

-- When that search returns true, no file that it reached is at fault: each is a shared object for a
-- machine that is known, and all that it names is found.
pub find_deps-fine :
    (disk : Disk) (paths : List Text) (root : Text) (files : List Text)
    → Lists disk files
    → ((machine : ℕ) → elf_reader (disk.fopen root) ≢ static machine)
    → (arch : Option Text) (deps : List Text)
    → find_deps disk paths (length files + 2) true root [] ≡ found arch deps
    → (z : Text) → Reach disk paths root z
    → ¬ Faulty disk paths z
find_deps-fine disk paths root files listed n arch deps e z r f =
    let (x, a) = returned disk paths root files listed arch deps n e in
    elim (x.closed z (complete disk paths root files listed deps x a r)) [
      | inl none_yet ↦ none_yet
      | inr d ↦ Done-Faulty disk paths deps z d f
    ]

-- That search returns the set in the order of its names, each once.
pub find_deps-IsSorted :
    (disk : Disk) (paths : List Text) (root : Text) (files : List Text)
    → Lists disk files
    → ((machine : ℕ) → elf_reader (disk.fopen root) ≢ static machine)
    → (arch : Option Text) (deps : List Text)
    → find_deps disk paths (length files + 2) true root [] ≡ found arch deps
    → IsSorted deps
find_deps-IsSorted disk paths root files listed n arch deps e =
    (returned disk paths root files listed arch deps n e).0.sorted tt

-- A first file that is a static program for a machine that is known needs nothing, and no loader:
-- the result is its architecture and no library, whatever the build.
pub find_arch_and_library_deps-static :
    (disk : Disk) (arm : Bool) (fuel machine : ℕ) (filename arch : Text)
    → elf_reader (disk.fopen filename) ≡ static machine
    → arch_of machine ≡ some arch
    → find_arch_and_library_deps disk arm (suc fuel) filename ≡ found (some arch) []
unfolding find_arch_and_library_deps find_deps static_binary
find_arch_and_library_deps-static disk arm fuel machine filename arch e a =
    rw (e, visit)
      (ap (with_loaders disk arm) (
        with_machine-named machine (found none []) (arch_of-known machine arch a)
        ∙ ap (λ o. named o (found none [])) a))
