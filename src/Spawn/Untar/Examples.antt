-- ===== src/Spawn/Untar/Examples.antt =====
-- The theorems on ports/nacl-spawn/nacl_startup_untar.c on a system with one file, which is read byte
-- by byte.
use webports.Prelude.{
  ℕ, true, List, [], ◌∷◌, ◌++◌, append-nil, length, ◌==◌, ◌≡◌, refl, sym, ap, ◌∙◌, ◌↔◌, arith,
  false, ==_refl,
}
use webports.Spawn.Untar.{
  Host, bytes_read, drop, read_file, write_file, already_extracted, HashFiles, max_hash_len,
  write_loop,
}
use webports.Spawn.Untar.Reading.{take, take-all, IsReadable, read_file_lem, already_extracted_iff}
use webports.Spawn.Untar.Writing.{IsWritable, write_file-read_file}

abbrev one_byte : List ℕ → List ℕ
one_byte [] = []
one_byte (x ∷ rest) = x ∷ []

abbrev one_file : Host (List ℕ)
one_file = record {
  instance_id = 1;
  devenv = false;
  stat_ok = λ p k. true;
  open_reads = λ p k. true;
  fread = λ p n m k. one_byte (drop n k);
  feof = λ p n k. n == length k;
  open_writes = λ p k. ([], true);
  fwrite = λ p b k. (k ++ b, length b);
  tar_open = λ p k. (k, true);
  tar_extract_all = λ p q k. (k, true);
  tar_close = λ p k. (k, true);
}

drop-length : (xs ys : List ℕ) → drop (length xs) (xs ++ ys) ≡ ys
drop-length [] ys = refl
drop-length (x ∷ xs) ys = drop-length xs ys

one_file-IsReadable : (p c : List ℕ) → IsReadable one_file p c c
one_file-IsReadable p c = record {
  opens = refl;
  reads = λ bytes x rest m e l. (
    x ∷ [],
    rest,
    ap (λ k. one_byte (drop (length bytes) k)) e ∙ ap one_byte (drop-length bytes (x ∷ rest)),
    refl,
    omega arith,
    omega arith,
  );
  ends = λ m.
      let z : drop (length c) c ≡ [] =
        ap (drop (length c)) (sym (append-nil c)) ∙ drop-length c [] in
      ap one_byte z;
  feof = ==_refl (length c);
}

read_file_lem_example : read_file one_file (47 ∷ []) 2 (7 ∷ 8 ∷ 9 ∷ []) ≡ bytes_read (7 ∷ 8 ∷ [])
read_file_lem_example =
    read_file_lem one_file (47 ∷ []) (7 ∷ 8 ∷ 9 ∷ []) 2 (7 ∷ 8 ∷ 9 ∷ [])
      (one_file-IsReadable (47 ∷ []) (7 ∷ 8 ∷ 9 ∷ []))

one_file-IsWritable : IsWritable one_file (λ p k. k)
one_file-IsWritable = record {
  opens = λ p k e. refl;
  writes = λ p b k. ap (λ t. k ++ t) (sym (take-all (length b) b (omega arith)));
}

written : write_file one_file (47 ∷ []) (7 ∷ 8 ∷ []) (1 ∷ []) ≡ (7 ∷ 8 ∷ [], true)
unfolding write_file write_loop
written = refl

write_file-read_file_example :
    read_file one_file (47 ∷ []) 5 (write_file one_file (47 ∷ []) (7 ∷ 8 ∷ []) (1 ∷ [])).0
    ≡ bytes_read (7 ∷ 8 ∷ [])
write_file-read_file_example =
    write_file-read_file one_file (λ p k. k) one_file-IsWritable (47 ∷ []) (7 ∷ 8 ∷ []) 5 (1 ∷ [])
      (omega arith) (ap (λ r. r.1) written)
      (one_file-IsReadable (47 ∷ []) (write_file one_file (47 ∷ []) (7 ∷ 8 ∷ []) (1 ∷ [])).0)

abbrev hashes : HashFiles
hashes = record { expected = 97 ∷ []; installed = 98 ∷ [] }

room : take max_hash_len (7 ∷ 8 ∷ []) ≡ 7 ∷ 8 ∷ []
unfolding max_hash_len
room = refl

hash_read : read_file one_file hashes.expected max_hash_len (7 ∷ 8 ∷ []) ≡ bytes_read (7 ∷ 8 ∷ [])
hash_read =
    read_file_lem one_file (97 ∷ []) (7 ∷ 8 ∷ []) max_hash_len (7 ∷ 8 ∷ [])
      (one_file-IsReadable (97 ∷ []) (7 ∷ 8 ∷ []))
    ∙ ap bytes_read room

already_extracted_iff_example :
    already_extracted one_file hashes (7 ∷ 8 ∷ []) ≡ true
    ↔ read_file one_file hashes.installed max_hash_len (7 ∷ 8 ∷ []) ≡ bytes_read (7 ∷ 8 ∷ [])
already_extracted_iff_example =
    already_extracted_iff one_file hashes (7 ∷ 8 ∷ []) (7 ∷ 8 ∷ []) hash_read
      ((λ e. omega arith), ((λ e. omega arith), tt))
