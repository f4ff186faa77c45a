-- ===== src/Spawn/Untar/Reading.antt =====
-- Files that ports/nacl-spawn/nacl_startup_untar.c reads and writes, and its test of the hashes.
use webports.Prelude.{
  ℕ, zero, suc, ◌+◌, ◌-◌, ◌<◌, ◌≤◌, true, false, List, [], ◌∷◌, ◌++◌, append-nil, append_assoc,
  length, length-append, ltb, ◌==◌, ◌≡◌, ◌≢◌, refl, sym, ap, subst, ◌∙◌, ◌↔◌, arith, inl, inr, All,
  Bool-cases, ==_iff, ==_refl, ne→==,
}
use webports.Spawn.Untar.{
  Host, HashFiles, FileRead, bytes_read, read_failed, read_exhausted, strncmp_eq, read_loop,
  read_file, same_hash, already_extracted, max_hash_len,
}

abbrev pub take : ℕ → List ℕ → List ℕ
take zero xs = []
take (suc n) [] = []
take (suc n) (x ∷ xs) = x ∷ take n xs

take-nil : (n : ℕ) → take n [] ≡ []
take-nil zero = refl
take-nil (suc n) = refl

take-append :
    (n : ℕ) (xs ys : List ℕ) → length xs ≤ n → take n (xs ++ ys) ≡ xs ++ take (n - length xs) ys
take-append n [] ys l = let z : n - 0 ≡ n = omega arith in ap (λ m. take m ys) (sym z)
take-append zero (x ∷ xs) ys l = absurd (omega arith)
take-append (suc n) (x ∷ xs) ys l =
    let z : suc n - suc (length xs) ≡ n - length xs = omega arith in
    rw z (ap (λ zs. x ∷ zs) (take-append n xs ys (omega arith)))

pub take-all : (n : ℕ) (xs : List ℕ) → length xs ≤ n → take n xs ≡ xs
take-all n [] l = take-nil n
take-all zero (x ∷ xs) l = absurd (omega arith)
take-all (suc n) (x ∷ xs) l = ap (λ zs. x ∷ zs) (take-all n xs (omega arith))

-- What a C library documents of a file of which `c` are the contents: `fread` behind a part of
-- them reads some of the rest, and at the end nothing, with the end-of-file indicator set.
pub record IsReadable {K : Type 0} (host : Host K) (file c : List ℕ) (k : K) : Type 0 where
  pub opens : host.open_reads file k ≡ true
  pub reads :
      (bytes : List ℕ) (x : ℕ) (rest : List ℕ) (m : ℕ)
      → c ≡ bytes ++ x ∷ rest
      → 0 < m
      → (chunk : List ℕ) × (more : List ℕ) × (host.fread file (length bytes) m k ≡ chunk)
        × (x ∷ rest ≡ chunk ++ more)
        × (0 < length chunk)
        × (length chunk ≤ m)
  pub ends : (m : ℕ) → host.fread file (length c) m k ≡ []
  pub feof : host.feof file (length c) k ≡ true

module _ {K : Type 0} (host : Host K) where
  read_loop_lem :
      (fuel : ℕ) (file c : List ℕ) (len : ℕ) (bytes rest : List ℕ) (k : K)
      → IsReadable host file c k
      → c ≡ bytes ++ rest
      → len < length bytes + fuel
      → length bytes ≤ len
      → read_loop host fuel file len bytes k ≡ bytes_read (bytes ++ take (len - length bytes) rest)
  unfolding read_loop
  read_loop_lem zero file c len bytes rest k r e f l = absurd (omega arith)
  read_loop_lem (suc fuel) file c len bytes [] k r e f l =
      let z : c ≡ bytes = e ∙ append-nil bytes in
      let m = len - length bytes in
      let ends : host.fread file (length bytes) m k ≡ [] =
        subst (λ b. host.fread file (length b) m k ≡ []) z (r.ends m) in
      let feof : host.feof file (length bytes) k ≡ true =
        subst (λ b. host.feof file (length b) k ≡ true) z r.feof in
      elim (Bool-cases (ltb (length bytes) len)) [
        | inl d ↦ rw (d, ends, feof, take-nil m, append-nil bytes) refl
        | inr d ↦ rw (d, take-nil m, append-nil bytes) refl
      ]
  read_loop_lem (suc fuel) file c len bytes (x ∷ rest) k r e f l =
      elim (Bool-cases (ltb (length bytes) len)) [
        | inl d ↦
            let m = len - length bytes in
            let (chunk, more, p, q, some_read, fits) = r.reads bytes x rest m e (ground arith) in
            let full : (length chunk == 0) ≡ false = ne→== (length chunk) 0 (λ z. omega arith) in
            let sizes = length-append bytes chunk in
            let z : len - length (bytes ++ chunk) ≡ m - length chunk = omega arith in
            let split : c ≡ (bytes ++ chunk) ++ more =
              e ∙ ap (λ t. bytes ++ t) q ∙ sym (append_assoc bytes chunk more) in
            let less : ltb (length bytes) len ≡ true = d in
            rw (d, p, full)
              (read_loop_lem fuel file c len (bytes ++ chunk) more k r split (omega arith)
                  (ground arith)
                ∙ ap bytes_read (
                    append_assoc bytes chunk (take (len - length (bytes ++ chunk)) more)
                    ∙ ap (λ t. bytes ++ t)
                        (ap (λ n. chunk ++ take n more) z
                          ∙ sym (take-append m chunk more fits)
                          ∙ ap (take m) (sym q))))
        | inr d ↦ let z : len - length bytes ≡ 0 = ground arith in rw (d, z, append-nil bytes) refl
      ]

  -- If `file` can be read and holds `c`, then `read_file` ends its loop and returns `c`, or as much of its
  -- beginning as the buffer has room for, however `fread` divides the file.
  pub read_file_lem :
      (file c : List ℕ) (len : ℕ) (k : K)
      → IsReadable host file c k
      → read_file host file len k ≡ bytes_read (take len c)
  unfolding read_file
  read_file_lem file c len k r = rw r.opens (
      let z : len - 0 ≡ len = omega arith in
      subst (λ n. read_loop host (len + 1) file len [] k ≡ bytes_read (take n c)) z
        (read_loop_lem (len + 1) file c len [] c k r refl (omega arith) (omega arith)))

-- `strncmp` finds no difference between equal buffers, and between buffers of the same length of
-- which one has no null byte only if they are equal.
strncmp_eq_refl : (a : List ℕ) → strncmp_eq a a ≡ true
unfolding strncmp_eq
strncmp_eq_refl [] = refl
strncmp_eq_refl (x ∷ a) = elim (Bool-cases (x == 0)) [
  | inl d ↦ rw (==_refl x, d) refl
  | inr d ↦ rw (==_refl x, d) (strncmp_eq_refl a)
]

strncmp_eq_same :
    (a b : List ℕ) → All (λ x. x ≢ 0) a → length b ≡ length a → strncmp_eq a b ≡ true → b ≡ a
unfolding strncmp_eq
strncmp_eq_same [] [] z l e = refl
strncmp_eq_same [] (y ∷ b) z l e = absurd (omega arith)
strncmp_eq_same (x ∷ a) [] z l e = absurd (omega arith)
strncmp_eq_same (x ∷ a) (y ∷ b) z l e =
    let full : (x == 0) ≡ false = ne→== x 0 z.0 in
    elim (Bool-cases (x == y)) [
      | inl d ↦
          let same = (==_iff x y).0 d in
          let tail : strncmp_eq a b ≡ true = ground arith in
          rw same (ap (λ c. y ∷ c) (strncmp_eq_same a b z.1 (omega arith) tail))
      | inr d ↦ ground arith
    ]

same_hash_iff :
    (hash : List ℕ) (m : FileRead)
    → All (λ x. x ≢ 0) hash
    → same_hash (bytes_read hash) m ≡ true ↔ m ≡ bytes_read hash
unfolding same_hash
same_hash_iff hash read_failed z = ((λ e. cc), (λ e. cc))
same_hash_iff hash read_exhausted z = ((λ e. cc), (λ e. cc))
same_hash_iff hash (bytes_read b) z = (there, here)
  where
    there : same_hash (bytes_read hash) (bytes_read b) ≡ true → bytes_read b ≡ bytes_read hash
    there s = elim (Bool-cases (length b == length hash)) [
      | inl d ↦
          ap bytes_read
            (strncmp_eq_same hash b z ((==_iff (length b) (length hash)).0 d) (ground arith))
      | inr d ↦ ground arith
    ]

    here : bytes_read b ≡ bytes_read hash → same_hash (bytes_read hash) (bytes_read b) ≡ true
    here f =
        subst (λ m. same_hash (bytes_read hash) m ≡ true) (sym f)
          (rw (==_refl (length hash)) (strncmp_eq_refl hash))

module _ {K : Type 0} (host : Host K) where
  -- If the hash next to the archive can be read and has no null byte, then the archive counts as
  -- extracted just if the installed hash reads the same.
  pub already_extracted_iff :
      (files : HashFiles) (k : K) (hash : List ℕ)
      → read_file host files.expected max_hash_len k ≡ bytes_read hash
      → All (λ x. x ≢ 0) hash
      → already_extracted host files k ≡ true
        ↔ read_file host files.installed max_hash_len k ≡ bytes_read hash
  unfolding already_extracted
  already_extracted_iff files k hash e z =
      subst
        (λ m.
          same_hash m (read_file host files.installed max_hash_len k) ≡ true
          ↔ read_file host files.installed max_hash_len k ≡ bytes_read hash)
        (sym e) (same_hash_iff hash (read_file host files.installed max_hash_len k) z)
