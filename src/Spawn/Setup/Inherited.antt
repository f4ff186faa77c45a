-- ===== src/Spawn/Setup/Inherited.antt =====
-- `restore_pipes` of ports/nacl-spawn/nacl_setup_env.c leaves the variables as they were.
use webports.Prelude.{
  ℕ, zero, suc, ◌+◌, ℤ, pos, eq_int, is_negative, true, false, not, List, [], ◌∷◌, ◌++◌, length,
  leb, Option, none, some, if◌then◌else◌, Text, ◌≡◌, refl, ◌∙◌, sym, subst, arith,
}
use webports.Spawn.Pipes.{
  OldPipe, Restored, restored, failed, exhausted, place_pipe, restore_new, restore_found,
  restore_scanned, restore_entry, restore_loop, find_pipe, max_old_pipes,
}
use webports.Spawn.Setup.{Host}
use webports.Spawn.Setup.Variables.{Variable, IsHost, variable}

module _ {K : Type 0} (host : Host K) (x : Variable) (l : IsHost host x) where
  open host use {library}

  abbrev value : K → Option Text
  value k = variable host x k

  -- The pipes are restored or not, and the variable is as it was.
  abbrev pub Keeping : K → Restored K → Type 0
  Keeping k (restored old t) = value t ≡ value k
  Keeping k (failed old t) = value t ≡ value k
  Keeping k exhausted = ⊥

  Keeping-after : (k t : K) (r : Restored K) → value t ≡ value k → Keeping t r → Keeping k r
  Keeping-after k t (restored old u) e g = g ∙ e
  Keeping-after k t (failed old u) e g = g ∙ e
  Keeping-after k t exhausted e g = absurd g

  place_pipe-value : (a b : ℤ) (k : K) → value (place_pipe library a b k) ≡ value k
  unfolding place_pipe
  place_pipe-value a b k =
      elim (eq_int a b)
        as (λ c. value (if c then k else library.close a (library.dup2 a b k)) ≡ value k) [
          | true ↦ refl
          | false ↦ l.close _ _ ∙ l.dup2 _ _ _
        ]

  module _ (later : List OldPipe → K → Restored K)
      (keeping : (old : List OldPipe) (k : K) → Keeping k (later old k)) where
    restore_new-Keeping :
        (e : OldPipe) (old : List OldPipe) (k : K) → Keeping k (restore_new library later e old k)
    unfolding restore_new
    restore_new-Keeping e old k =
        let o = library.open_pipe e.port (not (eq_int e.writer (pos 0))) k in
        let k2 = place_pipe library o.1 e.fd o.0 in
        let opened : value o.0 ≡ value k = l.open_pipe _ _ k in
        let placed : value k2 ≡ value k = place_pipe-value o.1 e.fd o.0 ∙ opened in
        let rest = later (old ++ e ∷ []) k2 in
        elim (is_negative o.1)
          as (λ b. Keeping k (
            if b
            then failed old o.0
            else if leb max_old_pipes (length old)
            then failed old k2
            else rest)) [
              | true ↦ opened
              | false ↦
                  elim (leb max_old_pipes (length old))
                    as (λ b. Keeping k (if b then failed old k2 else rest)) [
                      | true ↦ placed
                      | false ↦ Keeping-after k k2 rest placed (keeping (old ++ e ∷ []) k2)
                    ]
            ]

    restore_found-Keeping :
        (e : OldPipe) (found : Option OldPipe) (old : List OldPipe) (k : K)
        → Keeping k (restore_found library later e found old k)
    unfolding restore_found
    restore_found-Keeping e none old k = restore_new-Keeping e old k
    restore_found-Keeping e (some p) old k =
        let t = library.dup2 p.fd e.fd k in
        Keeping-after k t (later old t) (l.dup2 _ _ k) (keeping old t)

    restore_scanned-Keeping :
        (e : Option OldPipe) (old : List OldPipe) (k : K)
        → Keeping k (restore_scanned library later e old k)
    unfolding restore_scanned
    restore_scanned-Keeping none old k = keeping old k
    restore_scanned-Keeping (some e) old k =
        restore_found-Keeping e (find_pipe e.port e.writer old) old k

    restore_entry-Keeping :
        (count : ℕ) (entry : Option Text) (old : List OldPipe) (k : K)
        → Keeping k (restore_entry library later count entry old k)
    unfolding restore_entry
    restore_entry-Keeping count none old k = refl
    restore_entry-Keeping count (some entry) old k =
        let t = library.unset count k in
        Keeping-after k t (restore_scanned library later (library.scan entry) old t)
          (l.unset count k) (restore_scanned-Keeping (library.scan entry) old t)

  pub restore_loop-Keeping :
      (fuel count : ℕ) (old : List OldPipe) (k : K)
      → ((t : K) → library.setup (count + fuel) t ≡ none)
      → Keeping k (restore_loop library (suc fuel) count old k)
  unfolding restore_loop restore_entry
  restore_loop-Keeping zero count old k no_entry =
      let e : library.setup count k ≡ none =
        subst (λ n. library.setup n k ≡ none) (omega arith) (no_entry k) in
      subst
        (λ entry.
          Keeping k (restore_entry library (restore_loop library 0 (count + 1)) count entry old k))
        (sym e) refl
  restore_loop-Keeping (suc fuel) count old k no_entry =
      restore_entry-Keeping (restore_loop library (suc fuel) (count + 1))
        (λ old1 k1.
          restore_loop-Keeping fuel (count + 1) old1 k1
            (λ t. subst (λ n. library.setup n t ≡ none) (omega arith) (no_entry t)))
        count (library.setup count k) old k
