-- ===== src/Spawn/Libraries/Closure.antt =====
-- The result of `find_arch_and_library_deps` in ports/nacl-spawn/library_dependencies.cc.
use webports.Prelude.{
  ℕ, suc, ◌+◌, true, false, List, [], ◌∷◌, length, Option, none, some, Text, ◌≡◌, ◌≢◌, ◌⊎◌, inl,
  inr, refl, sym, ap, subst, ◌∙◌, arith, Among, All, Bool-cases, Option-cases,
}
use webports.Prelude.Sets.{has, insert}
use webports.Spawn.Elf.{ElfReader, invalid, static, dynamic, wild, no_fuel, elf_reader}
use webports.Spawn.Elf.Ends.{elf_reader_ends}
use webports.Spawn.Libraries.{
  Disk, known, arch_of, named, Outcome, found, failed, out_of_bounds, exhausted, with_machine,
  static_binary, find_needed, visit, find_deps,
}
use webports.Spawn.Libraries.Needs.{Reach, here, next, not_valid, not_bounded, not_known}
use webports.Spawn.Libraries.Extends.{Handled, Done-needs, Extends, Extends_add}
use webports.Spawn.Libraries.Finds.{Lists, Ends, Ends-map, find_deps-Works, find_needed-Ends}
use webports.Spawn.Libraries.Finds.Cases.{with_machine-unknown, find_deps-new}
use webports.Spawn.Libraries.Finds.Missing.{missing-le}

known-arch_of_ne : (machine : ℕ) → known machine ≡ true → arch_of machine ≢ none
unfolding known arch_of
known-arch_of_ne machine h = ground arith

pub known-arch_of :
    (machine : ℕ) → known machine ≡ true → (arch : Text) × (arch_of machine ≡ some arch)
known-arch_of machine h = elim (Option-cases (arch_of machine)) [
  | inl e ↦ absurd (known-arch_of_ne machine h e)
  | inr p ↦ p
]

pub static-cases :
    (r : ElfReader) → ((machine : ℕ) × (r ≡ static machine)) ⊎ ((m : ℕ) → r ≢ static m)
static-cases (static machine) = inl (machine, refl)
static-cases invalid = inr (λ m e. cc)
static-cases (dynamic machine names) = inr (λ m e. cc)
static-cases wild = inr (λ m e. cc)
static-cases no_fuel = inr (λ m e. cc)

pub with_machine-named :
    (machine : ℕ) (rest : Outcome)
    → known machine ≡ true
    → with_machine true machine rest ≡ named (arch_of machine) rest
unfolding with_machine
with_machine-named machine rest d = rw d

found_ends : (arch : Text) → named (some arch) (found none []) ≢ exhausted
unfolding named
found_ends arch = λ k. cc

pub static_ends : (machine : ℕ) → with_machine true machine (found none []) ≢ exhausted
static_ends machine = elim (Bool-cases (known machine)) [
  | inl d ↦
      let (arch, a) = known-arch_of machine d in
      let q = with_machine-named machine (found none []) d ∙ ap (λ o. named o (found none [])) a in
      subst (λ (o : Outcome). o ≢ exhausted) (sym q) (found_ends arch)
  | inr d ↦
      subst (λ (o : Outcome). o ≢ exhausted)
        (sym (with_machine-unknown true machine (found none []) d)) (λ k. cc)
]

module _ (disk : Disk) (paths : List Text) (root : Text) where
  named-Ends :
      (s : List Text) (P : List Text → Type 0) (arch : Text) (o : Outcome)
      → Ends disk paths root s P o
      → Ends disk paths root s P (named (some arch) o)
  unfolding named
  named-Ends s P arch (found a t) h = h
  named-Ends s P arch (failed errno) h = h
  named-Ends s P arch out_of_bounds h = h
  named-Ends s P arch exhausted h = h

  arch-Ends :
      (s : List Text) (P : List Text → Type 0) (machine : ℕ) (o : Outcome)
      → known machine ≡ true
      → Ends disk paths root s P o
      → Ends disk paths root s P (with_machine true machine o)
  arch-Ends s P machine o d h =
      let (arch, e) = known-arch_of machine d in
      subst (Ends disk paths root s P)
        (sym (with_machine-named machine o d ∙ ap (λ a. named a o) e)) (named-Ends s P arch o h)

  module _ (files : List Text) (listed : Lists disk files) where
    -- The first call, for a file that is not static.
    first-Ends :
        (reader : ElfReader)
        → elf_reader (disk.fopen root) ≡ reader
        → ((machine : ℕ) → reader ≢ static machine)
        → Ends disk paths root [] (Among root) (
            visit disk paths
              (find_deps disk paths (length files + 1) false)
              true
              reader
              (root ∷ []))
    unfolding visit insert
    first-Ends invalid e n = (root, here, not_valid e)
    first-Ends (static machine) e n = absurd (n machine refl)
    first-Ends (dynamic machine names) e n =
        let find = find_deps disk paths (length files + 1) false in
        let rest = find_needed disk paths find names (root ∷ []) in
        elim (Bool-cases (known machine)) [
          | inl d ↦ arch-Ends [] (Among root) machine rest d (
              Ends-map disk paths root (root ∷ []) [] (λ t. All (Handled disk paths t) names)
                (Among root) rest
                (λ u g h. (
                  Extends_add disk paths root [] u root here g (record {
                    machine = machine;
                    names = names;
                    read = e;
                    runs = d;
                    handled = h;
                  }),
                  g.grows root (inl refl),
                ))
                (find_needed-Ends disk paths root files listed (length files + 1) find
                  (find_deps-Works disk paths root files listed (length files + 1)) root machine
                  names here e names (λ m q. q) (root ∷ []) (inl refl)
                  (omega (arith, missing-le files (root ∷ [])))))
          | inr d ↦
              subst (Ends disk paths root [] (Among root))
                (sym (with_machine-unknown true machine rest d))
                (root, here, not_known machine names e d)
        ]
    first-Ends wild e n = (root, here, not_bounded e)
    first-Ends no_fuel e n = absurd (elf_reader_ends (disk.fopen root) e)

    -- The whole first call, in terms of the calls above.
    abbrev pub first : Outcome
    first = find_deps disk paths (length files + 2) true root []

    first-visit :
        first
        ≡ visit disk paths
            (find_deps disk paths (length files + 1) false)
            true
            (elf_reader (disk.fopen root))
            (root ∷ [])
    unfolding insert has
    first-visit =
        let e : length files + 2 ≡ suc (length files + 1) = omega arith in
        ap (λ fuel. find_deps disk paths fuel true root []) e
        ∙ find_deps-new disk paths (length files + 1) true root [] refl

    pub first_lem :
        ((machine : ℕ) → elf_reader (disk.fopen root) ≢ static machine)
        → Ends disk paths root [] (Among root) first
    first_lem n =
        subst (Ends disk paths root [] (Among root)) (sym first-visit)
          (first-Ends (elf_reader (disk.fopen root)) refl n)

    -- A static first file.
    pub first-static :
        (machine : ℕ)
        → elf_reader (disk.fopen root) ≡ static machine
        → first ≡ with_machine true machine (found none [])
    unfolding visit static_binary
    first-static machine e =
        first-visit
        ∙ ap
            (λ r.
              visit disk paths (find_deps disk paths (length files + 1) false) true r (root ∷ []))
            e

    pub complete :
        (t : List Text)
        → Extends disk paths root [] t
        → Among root t
        → {z : Text} → Reach disk paths root z
        → Among z t
    complete t e a here = a
    complete t e a (next {x} {y} r n) = elim (e.closed x (complete t e a r)) [
      | inl none_yet ↦ absurd none_yet
      | inr d ↦ Done-needs disk paths t x y d n
    ]

    pub returned :
        (arch : Option Text) (deps : List Text)
        → ((machine : ℕ) → elf_reader (disk.fopen root) ≢ static machine)
        → first ≡ found arch deps
        → Extends disk paths root [] deps × Among root deps
    returned arch deps n e = subst (Ends disk paths root [] (Among root)) e (first_lem n)
