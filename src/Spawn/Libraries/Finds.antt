-- ===== src/Spawn/Libraries/Finds.antt =====
-- The calls of `find_arch_and_library_deps` in ports/nacl-spawn/library_dependencies.cc.
pub mod Missing
pub mod Cases
use webports.Prelude.{
  ℕ, zero, suc, ◌+◌, ◌<◌, ◌≤◌, Bool, true, false, List, [], ◌∷◌, length, Option, none, some, Text,
  ◌≡◌, ◌≢◌, ◌⊎◌, inl, inr, refl, sym, ap, subst, ◌∙◌, arith, Among, All, Option-cases, Bool-cases,
  ◌==◌, if◌then◌else◌, ne→==,
}
use webports.Prelude.Sets.{has, insert, has-Among, Among-insert, Among-insert_self, length-insert}
use webports.Spawn.Paths.{find_in_paths}
use webports.Spawn.Paths.Split.{find_in_paths-access}
use webports.Spawn.Elf.{ElfReader, invalid, static, dynamic, wild, no_fuel, elf_reader}
use webports.Spawn.Elf.Ends.{elf_reader_ends}
use webports.Spawn.Libraries.{
  Disk, is_loader, known, Outcome, found, failed, out_of_bounds, exhausted, then_with, with_machine,
  static_binary, find_needed, visit, find_deps, enoexec, enoent,
}
use webports.Spawn.Libraries.Needs.{
  Needs, needs, Reach, next, Faulty, not_valid, not_shared, not_bounded, not_known, not_found,
}
use webports.Spawn.Libraries.Extends.{
  Handled, Handled-grows, Done, Extends, Extends_refl, Extends_trans, Extends_add,
}
use webports.Spawn.Libraries.Finds.Cases.{
  with_machine-known, with_machine-unknown, static_binary-failed, two_items, find_deps-has,
  find_deps-new, find_needed-loader, find_needed-none, find_needed-some,
}
use webports.Spawn.Libraries.Finds.Missing.{missing, missing-grows, missing-insert}

-- The files that can be read, which are finitely many.
abbrev pub Lists : Disk → List Text → Type 0
Lists disk files = (path : Text) → disk.access path ≡ true → Among path files

lt_le_trans : {a b c : ℕ} → a < b → b < suc c → a < c
lt_le_trans h k = omega arith

le_lt_trans : {a b c : ℕ} → a ≤ b → b < c → a < c
le_lt_trans h k = omega arith

module _ (disk : Disk) (paths : List Text) (root : Text) where
  abbrev pub Faults : Type 0
  Faults = (z : Text) × Reach disk paths root z × Faulty disk paths z

  -- What a call that starts with the set `s` does: it ends, and its set satisfies `P`.
  abbrev pub Ends : List Text → (List Text → Type 0) → Outcome → Type 0
  Ends s P (found arch t) = Extends disk paths root s t × P t
  Ends s P (failed errno) = Faults
  Ends s P out_of_bounds = Faults
  Ends s P exhausted = ⊥

  pub Ends-map :
      (s t : List Text) (P Q : List Text → Type 0) (o : Outcome)
      → ((u : List Text) → Extends disk paths root s u → P u → Extends disk paths root t u × Q u)
      → Ends s P o
      → Ends t Q o
  Ends-map s t P Q (found arch u) f h = f u h.0 h.1
  Ends-map s t P Q (failed errno) f h = h
  Ends-map s t P Q out_of_bounds f h = h
  Ends-map s t P Q exhausted f h = h

  then_with-Ends :
      (s : List Text) (P Q : List Text → Type 0) (o : Outcome) (later : List Text → Outcome)
      → ((t : List Text) → Extends disk paths root s t → P t → Ends s Q (later t))
      → Ends s P o
      → Ends s Q (then_with o later)
  unfolding then_with
  then_with-Ends s P Q (found arch t) later f h = f t h.0 h.1
  then_with-Ends s P Q (failed errno) later f h = h
  then_with-Ends s P Q out_of_bounds later f h = h
  then_with-Ends s P Q exhausted later f h = h

  module _ (files : List Text) (listed : Lists disk files) where
    -- The call does so for each file that can be read, where fewer than `k` files are not in the set.
    abbrev pub Works : ℕ → (Text → List Text → Outcome) → Type 0
    Works k find =
        (path : Text) (s : List Text)
        → Reach disk paths root path
        → Among path files
        → Among root s
        → missing files s < k
        → Ends s (Among path) (find path s)

    module _ (k : ℕ) (find : Text → List Text → Outcome) (works : Works k find) where
      -- The loop over the names from some name on.
      pub find_needed-Ends :
          (x : Text) (machine : ℕ) (all : List Text)
          → Reach disk paths root x
          → elf_reader (disk.fopen x) ≡ dynamic machine all
          → (names : List Text) → ((n : Text) → Among n names → Among n all)
          → (s : List Text) → Among root s
          → missing files s < k
          → Ends s (λ t. All (Handled disk paths t) names) (find_needed disk paths find names s)
      unfolding find_needed
      find_needed-Ends x machine all r e [] sub s a m = (Extends_refl disk paths root s, tt)
      find_needed-Ends x machine all r e (name ∷ names) sub s a m =
          let rest = find_needed-Ends x machine all r e names (λ n q. sub n (inr q)) in
          let P = λ (t : List Text). All (Handled disk paths t) names in
          let Q = λ (t : List Text). All (Handled disk paths t) (name ∷ names) in
          elim (Bool-cases (is_loader name)) [
            | inl l ↦ subst (Ends s Q) (sym (find_needed-loader disk paths find name names s l)) (
                Ends-map s s P Q (find_needed disk paths find names s) (λ u g h. (g, (inl l, h)))
                  (rest s a m))
            | inr l ↦ elim (Option-cases (find_in_paths disk.access name paths)) [
              | inl f ↦
                  subst (Ends s Q) (sym (find_needed-none disk paths find name names s l f))
                    (x, r, not_found machine all name e (sub name (inl refl)) l f)
              | inr (path, f) ↦
                  subst (Ends s Q) (sym (find_needed-some disk paths find name path names s l f)) (
                    then_with-Ends s (Among path) Q (find path s)
                      (find_needed disk paths find names)
                      (λ t g p.
                        Ends-map t s P Q (find_needed disk paths find names t)
                          (λ u b h. (
                            Extends_trans disk paths root s t u g b,
                            (inr (path, f, b.grows path p), h),
                          ))
                          (rest t (g.grows root a)
                            (le_lt_trans (missing-grows files s t g.grows) m)))
                      (works path s (next r (needs machine all name e (sub name (inl refl)) l f))
                        (listed path (find_in_paths-access disk.access name paths path f)) a m))
            ]
          ]

      -- What follows the insertion, for a shared object for a machine that is known.
      visit-Ends :
          (path : Text) (machine : ℕ) (names s : List Text)
          → Reach disk paths root path
          → elf_reader (disk.fopen path) ≡ dynamic machine names
          → known machine ≡ true
          → Among root s
          → missing files (insert path s) < k
          → Ends s (Among path) (find_needed disk paths find names (insert path s))
      visit-Ends path machine names s r e d a m =
          Ends-map (insert path s) s (λ t. All (Handled disk paths t) names) (Among path)
            (find_needed disk paths find names (insert path s))
            (λ u g h. (
              Extends_add disk paths root s u path r g
                  (record { machine = machine; names = names; read = e; runs = d; handled = h }),
              g.grows path (Among-insert_self path s),
            ))
            (find_needed-Ends path machine names r e names (λ n q. q) (insert path s)
              (Among-insert root path s a) m)

      -- The same for each file, whatever the reader finds.
      visit_lem :
          (path : Text) (s : List Text) (reader : ElfReader)
          → elf_reader (disk.fopen path) ≡ reader
          → Reach disk paths root path
          → has path s ≡ false
          → Among root s
          → missing files (insert path s) < k
          → Ends s (Among path) (visit disk paths find false reader (insert path s))
      unfolding visit
      visit_lem path s invalid e r h a m = (path, r, not_valid e)
      visit_lem path s (static machine) e r h a m = elim (Bool-cases (known machine)) [
        | inl d ↦
            subst (Ends s (Among path))
              (sym (with_machine-known machine (static_binary (insert path s)) d))
              (subst (Ends s (Among path))
                (sym (static_binary-failed (insert path s) (two_items path root s h a)))
                (path, r, not_shared machine e))
        | inr d ↦
            subst (Ends s (Among path))
              (sym (with_machine-unknown false machine (static_binary (insert path s)) d))
              (path, r, not_shared machine e)
      ]
      visit_lem path s (dynamic machine names) e r h a m = elim (Bool-cases (known machine)) [
        | inl d ↦
            subst (Ends s (Among path))
              (sym
                (with_machine-known machine (find_needed disk paths find names (insert path s)) d))
              (visit-Ends path machine names s r e d a m)
        | inr d ↦
            subst (Ends s (Among path))
              (sym (
                with_machine-unknown false machine
                  (find_needed disk paths find names (insert path s)) d))
              (path, r, not_known machine names e d)
      ]
      visit_lem path s wild e r h a m = (path, r, not_bounded e)
      visit_lem path s no_fuel e r h a m = absurd (elf_reader_ends (disk.fopen path) e)

    -- Each call behind the first ends, with fuel for the files that are not in the set.
    pub find_deps-Works : (fuel : ℕ) → Works fuel (find_deps disk paths fuel false)
    unfolding find_deps
    find_deps-Works zero path s r f a m = absurd (omega arith)
    find_deps-Works (suc fuel) path s r f a m = elim (Bool-cases (has path s)) [
      | inl h ↦
          subst (Ends s (Among path)) (sym (find_deps-has disk paths fuel false path s h))
            (Extends_refl disk paths root s, has-Among path s h)
      | inr h ↦ subst (Ends s (Among path)) (sym (find_deps-new disk paths fuel false path s h)) (
          visit_lem fuel (find_deps disk paths fuel false) (find_deps-Works fuel) path s
            (elf_reader (disk.fopen path)) refl r h a
            (lt_le_trans (missing-insert files s path f h) m))
    ]
