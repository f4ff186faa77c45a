-- ===== src/Spawn/Fds/Rows.antt =====
-- The entries that `CloneFileDescriptors` of ports/nacl-spawn/nacl_spawn.cc adds.
use webports.Prelude.{
  ℕ, zero, suc, ◌+◌, pos, Bool, true, false, List, [], ◌∷◌, ◌++◌, map, length, Option, none, some,
  ◌≡◌, ◌≢◌, refl, ap, sym, ◌∙◌, Text, append_assoc, append-nil, map-append,
}
use webports.Spawn.Var.{PpVar, Pepper, array_setstring, array_appendstring}
use webports.Spawn.Var.Insert.{IsArray}
use webports.Spawn.Pipes.{OldPipe}
use webports.Spawn.Fds.{
  Stat, not_open, stat_error, fifo, other_kind, Table, Cloned, cloned, as_int, clone_open,
  clone_from, clone_file_descriptors, max_file_descriptor,
}

-- The row of a descriptor, if it is a pipe that is not closed on `exec`.
abbrev pub row_of : ℕ → Stat → Option Bool → List OldPipe
row_of fd (fifo ino writer) (some false) =
    record { port = ino; writer = as_int writer; fd = pos fd } ∷ []
row_of fd _ _ = []

module _ (table : Table) where
  -- The rows of the pipes that a new process inherits, in the order of the descriptors.
  unfoldable pub pipe_rows : ℕ → ℕ → List OldPipe
  pipe_rows zero fd = []
  pipe_rows (suc rounds) fd =
      row_of fd (table.fstat fd) (table.close_on_exec fd) ++ pipe_rows rounds (fd + 1)

-- No call fails but for a descriptor that is not open.
abbrev pub NoError : Stat → Option Bool → Type 0
NoError not_open flags = Unit
NoError stat_error flags = ⊥
NoError (fifo ino writer) flags = flags ≢ none
NoError other_kind flags = flags ≢ none

abbrev pub numbered : (ℕ → OldPipe → Text) → ℕ → List OldPipe → List Text
numbered print count [] = []
numbered print count (r ∷ rows) = print count r ∷ numbered print (count + 1) rows

-- What the Pepper interface documents of an array that is written behind its end, and of texts.
pub record Appends {K : Type 0} (pp : Pepper K) (arr : PpVar) (text : PpVar → Text)
    (items : K → List PpVar) : Type 0 where
  pub is_array : IsArray pp arr items
  pub utf8-text : (s : Text) (k : K) → text (pp.var_from_utf8 s k).1 ≡ s
  pub utf8-items : (s : Text) (k : K) → items (pp.var_from_utf8 s k).0 ≡ items k
  pub set-end :
      (v : PpVar) (k : K) → items (pp.array_set arr (length (items k)) v k) ≡ items k ++ v ∷ []

module _ {K : Type 0} (pp : Pepper K) (print : ℕ → OldPipe → Text) (table : Table) (arr : PpVar)
    (text : PpVar → Text) (items : K → List PpVar) (laws : Appends pp arr text items) where
  appendstring_lem :
      (value : Text) (k : K)
      → map text (items (array_appendstring pp arr value k)) ≡ map text (items k) ++ value ∷ []
  unfolding array_appendstring array_setstring
  appendstring_lem value k =
      let k1 = (pp.var_from_utf8 value k).0 in
      let v = (pp.var_from_utf8 value k).1 in
      let n : pp.get_length arr k ≡ length (items k1) =
        laws.is_array.length-items k ∙ sym (ap length (laws.utf8-items value k)) in
      let end : items (pp.array_set arr (pp.get_length arr k) v k1) ≡ items k ++ v ∷ [] =
        ap (λ i. items (pp.array_set arr i v k1)) n
        ∙ laws.set-end v k1
        ∙ ap (λ l. l ++ v ∷ []) (laws.utf8-items value k) in
      ap (map text)
        (laws.is_array.release-items v (pp.array_set arr (pp.get_length arr k) v k1) ∙ end)
      ∙ map-append text (items k) (v ∷ [])
      ∙ ap (λ t. map text (items k) ++ t ∷ []) (laws.utf8-text value k)

  -- The loop succeeds, and has added these entries.
  abbrev Adds : K → List Text → Cloned K → Type 0
  Adds k added r = (k' : K) × (r ≡ cloned k') × (map text (items k') ≡ map text (items k) ++ added)

  clone_open-Adds :
      (later : ℕ → K → Cloned K) (rows : List OldPipe) (fd count : ℕ) (s : Stat) (f : Option Bool)
      (k : K)
      → NoError s f
      → ((n : ℕ) (j : K) → Adds j (numbered print n rows) (later n j))
      → Adds k
          (numbered print count (row_of fd s f ++ rows))
          (clone_open pp print table arr later fd count s f k)
  unfolding clone_open
  clone_open-Adds later rows fd count not_open f k h l = l count k
  clone_open-Adds later rows fd count stat_error f k h l = absurd h
  clone_open-Adds later rows fd count (fifo ino writer) none k h l = absurd (h refl)
  clone_open-Adds later rows fd count (fifo ino writer) (some true) k h l = l count k
  clone_open-Adds later rows fd count (fifo ino writer) (some false) k h l =
      let entry = print count (record { port = ino; writer = as_int writer; fd = pos fd }) in
      let (k', e, t) = l (count + 1) (array_appendstring pp arr entry k) in
      (
        k',
        e,
        t
            ∙ ap (λ u. u ++ numbered print (count + 1) rows) (appendstring_lem entry k)
            ∙ append_assoc (map text (items k)) (entry ∷ []) (numbered print (count + 1) rows),
      )
  clone_open-Adds later rows fd count other_kind none k h l = absurd (h refl)
  clone_open-Adds later rows fd count other_kind (some flag) k h l = l count k

  clone_from-Adds :
      ((fd : ℕ) → NoError (table.fstat fd) (table.close_on_exec fd))
      → (rounds fd count : ℕ) (k : K)
      → Adds k
          (numbered print count (pipe_rows table rounds fd))
          (clone_from pp print table arr rounds fd count k)
  unfolding clone_from pipe_rows
  clone_from-Adds h zero fd count k = (k, refl, sym (append-nil (map text (items k))))
  clone_from-Adds h (suc rounds) fd count k =
      clone_open-Adds (clone_from pp print table arr rounds (fd + 1))
        (pipe_rows table rounds (fd + 1)) fd count (table.fstat fd) (table.close_on_exec fd) k
        (h fd) (clone_from-Adds h rounds (fd + 1))

  -- If the Pepper interface is as documented, and no call fails but for descriptors that are not
  -- open, the strings of the environment get one entry for each pipe that is not closed on `exec`,
  -- in the order of the descriptors and numbered from 0, and keep what they had.
  pub clone_file_descriptors-pipe_rows :
      ((fd : ℕ) → NoError (table.fstat fd) (table.close_on_exec fd))
      → (k : K)
      → (k' : K) × (clone_file_descriptors pp print table arr k ≡ cloned k')
        × (map text (items k')
            ≡ map text (items k) ++ numbered print 0 (pipe_rows table max_file_descriptor 0))
  unfolding clone_file_descriptors
  clone_file_descriptors-pipe_rows h k = clone_from-Adds h max_file_descriptor 0 0 k
