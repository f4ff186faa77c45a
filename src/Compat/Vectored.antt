-- ===== src/Compat/Vectored.antt =====
-- ports/glibc-compat/src/writev.c: `writev` and `readv` as loops of `write` and `read`.
pub mod Whole
mod Examples
use webports.Prelude.{
  ℕ, zero, suc, ◌+◌, ◌-◌, ◌%◌, ℤ, pos, negsuc, List, [], ◌∷◌, ltb, ◌==◌, if◌then◌else◌,
}

-- `struct iovec`
pub record Iovec : Type 0 where
  pub iov_base : ℕ
  pub iov_len : ℕ

-- `len = iov->iov_len`, an `int`: as long as it is above 0, so that a negative one counts as 0.
abbrev pub int_len : ℕ → ℕ
int_len n = let m = n % 0x1_0000_0000 in if ltb m 0x8000_0000 then m else 0

-- After a part of the loop: it goes on with so many bytes in all, or the function returns.
pub data Progress (K : Type 0) : Type 0 where
  going : ℕ → K → Progress K
  returned : ℤ → K → Progress K

-- `call` is `write` or `read` of the descriptor, from an address and of a length.
module _ {K : Type 0} (clear_errno : K → K) (call : ℕ → ℕ → K → K × ℤ) where
  -- What one result does to the loop: an error with nothing done, the end, or some progress, on which
  -- `later` goes on with the number of bytes.
  unfoldable pub on_result : (ℕ → K → Progress K) → ℕ → ℤ → K → Progress K
  on_result later n (negsuc _) k = if n == 0 then returned (negsuc 0) k else returned (pos n) k
  on_result later n (pos zero) k = returned (pos n) k
  on_result later n (pos (suc r)) k = later (suc r) (clear_errno k)

  -- The inner loop; the first number is fuel, for which the length is enough.
  unfoldable pub one_buffer : ℕ → ℕ → ℕ → ℕ → K → Progress K
  unfolding on_result
  one_buffer zero base len n k = going n k
  one_buffer (suc fuel) base len n k =
      let (k1, ret) = call base len k in
      let later : ℕ → K → Progress K = λ r k2. one_buffer fuel (base + r) (len - r) (n + r) k2 in
      if len == 0 then going n k else on_result later n ret k1

  -- The outer loop.
  unfoldable pub buffers : List Iovec → ℕ → K → ℤ × K
  unfolding one_buffer
  buffers [] n k = (pos n, k)
  buffers (v ∷ rest) n k =
      elim (one_buffer (int_len v.iov_len) v.iov_base (int_len v.iov_len) n k) [
        | going n1 k1 ↦ buffers rest n1 k1
        | returned ret k1 ↦ (ret, k1)
      ]

-- `writev` and `readv`, with the calls as parameters.
unfoldable pub writev : {K : Type 0} → (K → K) → (ℕ → ℕ → K → K × ℤ) → List Iovec → K → ℤ × K
unfolding buffers
writev clear_errno write iov k = buffers clear_errno write iov 0 (clear_errno k)

unfoldable pub readv : {K : Type 0} → (K → K) → (ℕ → ℕ → K → K × ℤ) → List Iovec → K → ℤ × K
unfolding buffers
readv clear_errno read iov k = buffers clear_errno read iov 0 (clear_errno k)
