-- ===== src/Spawn/Untar/Writing.antt =====
-- Files that ports/nacl-spawn/nacl_startup_untar.c writes.
use webports.Prelude.{
  ℕ, zero, suc, ◌-◌, ◌≤◌, true, List, [], ◌∷◌, ◌++◌, append-nil, append_assoc, length, ◌==◌, ◌≡◌,
  refl, sym, ap, subst, ◌∙◌, arith, inl, inr, Bool-cases,
}
use webports.Spawn.Untar.{Host, bytes_read, drop, write_loop, write_file, read_file}
use webports.Spawn.Untar.Reading.{take, take-all, IsReadable, read_file_lem}

take-drop : (n : ℕ) (xs : List ℕ) → take n xs ++ drop n xs ≡ xs
take-drop zero xs = refl
take-drop (suc n) [] = refl
take-drop (suc n) (x ∷ xs) = ap (λ ys. x ∷ ys) (take-drop n xs)

length-drop : (n : ℕ) (xs : List ℕ) → length (drop n xs) ≤ length xs - n
length-drop zero xs = omega arith
length-drop (suc n) [] = omega arith
length-drop (suc n) (x ∷ xs) = let h = length-drop n xs in omega arith

no_items : (xs : List ℕ) → length xs ≤ 0 → xs ≡ []
no_items [] l = refl
no_items (x ∷ xs) l = absurd (omega arith)

-- What a C library documents of the contents of files: `fopen` with "w" empties a file, and `fwrite`
-- appends as many bytes as it says.
pub record IsWritable {K : Type 0} (host : Host K) (contents : List ℕ → K → List ℕ) : Type 0 where
  pub opens :
      (file : List ℕ) (k : K)
      → (host.open_writes file k).1 ≡ true
      → contents file (host.open_writes file k).0 ≡ []
  pub writes :
      (file buffer : List ℕ) (k : K)
      → contents file (host.fwrite file buffer k).0
        ≡ contents file k ++ take (host.fwrite file buffer k).1 buffer

module _ {K : Type 0} (host : Host K) (contents : List ℕ → K → List ℕ)
    (writable : IsWritable host contents) where
  write_loop_lem :
      (fuel : ℕ) (file buffer : List ℕ) (k : K)
      → length buffer ≤ fuel
      → (write_loop host fuel file buffer k).1 ≡ true
      → contents file (write_loop host fuel file buffer k).0 ≡ contents file k ++ buffer
  unfolding write_loop
  write_loop_lem zero file buffer k l e =
      rw (no_items buffer l) (sym (append-nil (contents file k)))
  write_loop_lem (suc fuel) file buffer k l e =
      let n = (host.fwrite file buffer k).1 in
      let k1 = (host.fwrite file buffer k).0 in
      let short = length-drop n buffer in
      elim (Bool-cases (length buffer == 0)) [
        | inl d ↦ rw d (
            subst (λ b. contents file k ≡ contents file k ++ b)
              (sym (no_items buffer (ground arith))) (sym (append-nil (contents file k))))
        | inr d ↦ elim (Bool-cases (n == 0)) [
          | inl z ↦ ground arith
          | inr z ↦
              rw (d, z)
                (write_loop_lem fuel file (drop n buffer) k1 (ground arith) (ground arith)
                  ∙ ap (λ c. c ++ drop n buffer) (writable.writes file buffer k)
                  ∙ append_assoc (contents file k) (take n buffer) (drop n buffer)
                  ∙ ap (λ b. contents file k ++ b) (take-drop n buffer))
        ]
      ]

  write_file_lem :
      (file buffer : List ℕ) (k : K)
      → (write_file host file buffer k).1 ≡ true
      → contents file (write_file host file buffer k).0 ≡ buffer
  unfolding write_file
  write_file_lem file buffer k e = elim (Bool-cases (host.open_writes file k).1) [
    | inl d ↦ rw d (
        write_loop_lem (length buffer) file buffer (host.open_writes file k).0 (omega arith)
          (ground arith)
        ∙ ap (λ c. c ++ buffer) (writable.opens file k d))
    | inr d ↦ ground arith
  ]

  -- If the file system is as documented and `write_file` succeeds, however `fwrite` divides the
  -- buffer, and the file can then be read, `read_file` with room for the buffer gives it back.
  pub write_file-read_file :
      (file buffer : List ℕ) (len : ℕ) (k : K)
      → length buffer ≤ len
      → (write_file host file buffer k).1 ≡ true
      → IsReadable host file
          (contents file (write_file host file buffer k).0)
          (write_file host file buffer k).0
      → read_file host file len (write_file host file buffer k).0 ≡ bytes_read buffer
  write_file-read_file file buffer len k l e r =
      let k1 = (write_file host file buffer k).0 in
      read_file_lem host file (contents file k1) len k1 r
      ∙ ap (λ c. bytes_read (take len c)) (write_file_lem file buffer k e)
      ∙ ap bytes_read (take-all len buffer l)
