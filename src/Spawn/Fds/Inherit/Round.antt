-- ===== src/Spawn/Fds/Inherit/Round.antt =====
-- One round of `restore_pipes` in ports/nacl-spawn/nacl_setup_env.c, for an entry that a parent wrote.
use webports.Prelude.{
  ℕ, suc, ◌+◌, ◌≤◌, ℤ, pos, eq_int, false, not, List, [], ◌∷◌, ◌++◌, length, length-append, Option,
  some, leb, ◌≡◌, inl, inr, refl, ap, ◌∙◌, arith, Text, All, Among, All-Among, Bool-cases,
  Option-cases,
}
use webports.Spawn.Pipes.{
  OldPipe, Library, Restored, restored, find_pipe, place_pipe, restore_new, restore_found,
  restore_scanned, restore_entry, max_old_pipes,
}
use webports.Spawn.Fds.Inherit.{
  End, end_of, IsChild, find_pipe_lem, All-append, All-map, Fresh-fds, Clear, entry_at, Held,
  place_lem, place-other,
}

module _ {K : Type 0} (lib : Library K) (holds : K → ℤ → Option End)
    (laws : IsChild lib holds) where
  module _ (print : OldPipe → Text) (read : (r : OldPipe) → lib.scan (print r) ≡ some r) where
    -- The loop ends with the rows' pipes at their descriptors.
    abbrev pub Restores : List OldPipe → List OldPipe → Restored K → Type 0
    Restores done todo r =
        (old : List OldPipe) × (k : K) × (r ≡ restored old k)
        × All (Held lib holds laws k) done
        × All (Held lib holds laws k) todo

    -- What the loop meets: the entries that are left, and the rows of the pipes that are open.
    pub record Meets (done todo old : List OldPipe) (count : ℕ) (k : K) : Type 0 where
      pub rows : All (λ p. Among p done) old
      pub held : All (Held lib holds laws k) done
      pub entries : (n : ℕ) → lib.setup (count + n) k ≡ entry_at print todo n
      pub room : length old + length todo ≤ max_old_pipes
      pub clear : Clear done todo

    unset-Held :
        (done : List OldPipe) (n : ℕ) (k : K)
        → All (Held lib holds laws k) done
        → All (Held lib holds laws (lib.unset n k)) done
    unset-Held done n k h =
        All-map (Held lib holds laws k) (Held lib holds laws (lib.unset n k)) done
          (λ r m e. laws.unset-holds n r.fd k ∙ e) h

    later_entries :
        (e : OldPipe) (todo : List OldPipe) (count : ℕ) (k k' : K)
        → ((n : ℕ) → lib.setup (count + n) k ≡ entry_at print (e ∷ todo) n)
        → ((n : ℕ) → lib.setup n k' ≡ lib.setup n (lib.unset count k))
        → (n : ℕ) → lib.setup (count + 1 + n) k' ≡ entry_at print todo n
    later_entries e todo count k k' h s n =
        let q : count + 1 + n ≡ count + suc n = omega arith in
        s (count + 1 + n)
        ∙ laws.unset-setup (count + 1 + n) count k (λ z. omega arith)
        ∙ ap (λ m. lib.setup m k) q
        ∙ h (suc n)

    module _ (later : List OldPipe → K → Restored K) (done todo old : List OldPipe) (e : OldPipe)
        (count : ℕ) (k : K) (m : Meets done (e ∷ todo) old count k)
        (goes : (old' : List OldPipe) (k' : K)
          → Meets (e ∷ done) todo old' (count + 1) k'
          → Restores (e ∷ done) todo (later old' k')) where
      abbrev k0 : K
      k0 = lib.unset count k

      keep_rows : All (λ p. Among p (e ∷ done)) old
      keep_rows = All-map (λ p. Among p done) (λ p. Among p (e ∷ done)) old (λ p z h. inr h) m.rows

      restore_found-some :
          (p : OldPipe)
          → find_pipe e.port e.writer old ≡ some p
          → Restores (e ∷ done) todo (restore_found lib later e (some p) old k0)
      unfolding restore_found
      restore_found-some p f =
          let (a, b, c) = find_pipe_lem e.port e.writer old p f in
          let h : Held lib holds laws k p =
            All-Among (Held lib holds laws k) p done m.held
              (All-Among (λ q. Among q done) p old m.rows a) in
          let h0 : holds k0 p.fd ≡ some (end_of e) =
            laws.unset-holds count p.fd k
            ∙ h
            ∙ ap (λ port. some (port, not (eq_int p.writer (pos 0)))) b
            ∙ ap (λ w. some (e.port, not (eq_int w (pos 0)))) c in
          goes old (lib.dup2 p.fd e.fd k0) (record {
            rows = keep_rows;
            held = (
              laws.dup2-holds p.fd e.fd k0 (end_of e) h0,
              All-map (Held lib holds laws k0) (Held lib holds laws (lib.dup2 p.fd e.fd k0)) done
                  (λ r z g.
                    laws.dup2-other p.fd e.fd r.fd k0 (Fresh-fds e.fd done r m.clear.0 z) ∙ g)
                  (unset-Held done count k m.held),
            );
            entries =
                later_entries e todo count k (lib.dup2 p.fd e.fd k0) m.entries
                  (λ n. laws.dup2-setup n p.fd e.fd k0);
            room = omega (arith, m.room);
            clear = m.clear.1;
          })

      abbrev opened : K
      opened = (lib.open_pipe e.port (not (eq_int e.writer (pos 0))) k0).0

      abbrev fd_tmp : ℤ
      fd_tmp = (lib.open_pipe e.port (not (eq_int e.writer (pos 0))) k0).1

      abbrev placed : K
      placed = place_pipe lib fd_tmp e.fd opened

      placed-setup : (n : ℕ) → lib.setup n placed ≡ lib.setup n k0
      unfolding place_pipe
      placed-setup n =
          let s = laws.open-setup n e.port (not (eq_int e.writer (pos 0))) k0 in
          elim (Bool-cases (eq_int fd_tmp e.fd)) [
            | inl d ↦ rw d s
            | inr d ↦ rw d (
                laws.close-setup n fd_tmp (lib.dup2 fd_tmp e.fd opened)
                ∙ laws.dup2-setup n fd_tmp e.fd opened
                ∙ s)
          ]

      placed-Meets : Meets (e ∷ done) todo (old ++ e ∷ []) (count + 1) placed
      placed-Meets = record {
        rows = All-append (λ p. Among p (e ∷ done)) old (e ∷ []) keep_rows (inl refl, tt);
        held = (
          place_lem lib holds laws e k0,
          All-map (Held lib holds laws k0) (Held lib holds laws placed) done
              (λ r z g.
                place-other lib holds laws e k0 r.fd (end_of r) (Fresh-fds e.fd done r m.clear.0 z)
                  g)
              (unset-Held done count k m.held),
        );
        entries = later_entries e todo count k placed m.entries placed-setup;
        room = omega (arith, m.room, length-append old (e ∷ []));
        clear = m.clear.1;
      }

      restore_new-Restores : Restores (e ∷ done) todo (restore_new lib later e old k0)
      unfolding restore_new
      restore_new-Restores =
          let room : leb max_old_pipes (length old) ≡ false = ground (arith, m.room) in
          rw (laws.open-valid e.port (not (eq_int e.writer (pos 0))) k0, room)
            (goes (old ++ e ∷ []) placed placed-Meets)

      pub restore_entry-Restores :
          Restores (e ∷ done) todo (restore_entry lib later count (some (print e)) old k)
      unfolding restore_entry restore_scanned restore_found
      restore_entry-Restores =
          rw (read e, restore_scanned)
            (elim (Option-cases (find_pipe e.port e.writer old)) [
              | inl f ↦ rw (f, restore_found) restore_new-Restores
              | inr (p, f) ↦ rw (f, restore_found) (restore_found-some p f)
            ])
