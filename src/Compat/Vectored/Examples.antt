-- ===== src/Compat/Vectored/Examples.antt =====
-- The theorem on `writev` with a descriptor that takes one byte at a time, and a memory in which each
-- address holds itself.
use webports.Prelude.{
  ℕ, zero, suc, ◌+◌, ◌-◌, ◌≤◌, ℤ, pos, negsuc, List, [], ◌∷◌, ◌++◌, append-nil, length, ◌≡◌, refl,
  sym, ap, subst, arith,
}
use webports.Compat.Vectored.{Iovec, writev}
use webports.Compat.Vectored.Whole.{IsWrite, Sends, writev-Sends}

abbrev range : ℕ → ℕ → List ℕ
range b zero = []
range b (suc n) = b ∷ range (b + 1) n

length-range : (b n : ℕ) → length (range b n) ≡ n
length-range b zero = refl
length-range b (suc n) = omega (arith, length-range (b + 1) n)

range-split : (b m n : ℕ) → m ≤ n → range b n ≡ range b m ++ range (b + m) (n - m)
range-split b zero n l =
    let z : b + 0 ≡ b = omega arith in let y : n - 0 ≡ n = omega arith in rw (z, y) refl
range-split b (suc m) zero l = absurd (omega arith)
range-split b (suc m) (suc n) l =
    let z : (b + 1) + m ≡ b + suc m = omega arith in
    let y : suc n - suc m ≡ n - m = omega arith in
    rw (y, sym z) (ap (λ xs. b ∷ xs) (range-split (b + 1) m n (omega arith)))

abbrev write_one : ℕ → ℕ → List ℕ → List ℕ × ℤ
write_one b zero k = (k, pos 0)
write_one b (suc n) k = (k ++ b ∷ [], pos 1)

write_one-done :
    (b n : ℕ) (k : List ℕ) (r : ℕ)
    → (write_one b n k).1 ≡ pos r
    → (r ≤ n) × ((write_one b n k).0 ≡ k ++ range b r)
write_one-done b zero k r e =
    let z : 0 ≡ r = cc in (omega arith, subst (λ m. k ≡ k ++ range b m) z (sym (append-nil k)))
write_one-done b (suc n) k r e =
    let z : 1 ≡ r = cc in (omega arith, subst (λ m. k ++ b ∷ [] ≡ k ++ range b m) z refl)

write_one-failed :
    (b n : ℕ) (k : List ℕ) (e : ℕ) → (write_one b n k).1 ≡ negsuc e → (write_one b n k).0 ≡ k
write_one-failed b zero k e z = refl
write_one-failed b (suc n) k e z = cc

write_one-IsWrite : IsWrite (λ k. k) write_one (λ k. k) range
write_one-IsWrite = record {
  clear-sent = λ k. refl;
  length-memory = length-range;
  split-memory = range-split;
  done-sent = write_one-done;
  failed-sent = write_one-failed;
}

abbrev two_buffers : List Iovec
two_buffers = record { iov_base = 10; iov_len = 3 } ∷ record { iov_base = 20; iov_len = 2 } ∷ []

writev-Sends_example :
    Sends
      (λ k. k)
      write_one
      (λ k. k)
      range
      write_one-IsWrite
      (10 ∷ 11 ∷ 12 ∷ 20 ∷ 21 ∷ [])
      0
      (7 ∷ [])
      (writev (λ k. k) write_one two_buffers (7 ∷ []))
writev-Sends_example =
    writev-Sends (λ k. k) write_one (λ k. k) range write_one-IsWrite two_buffers (7 ∷ [])
