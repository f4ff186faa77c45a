-- ===== src/Compat/Vectored/Whole.antt =====
-- How much of its buffers `writev` of ports/glibc-compat/src/writev.c writes.
use webports.Prelude.{
  ℕ, zero, suc, ◌+◌, ◌-◌, ◌<◌, ◌≤◌, ℤ, pos, negsuc, List, [], ◌∷◌, ◌++◌, append-nil, append_assoc,
  length, length-append, ◌==◌, ◌≡◌, ◌≢◌, refl, sym, ap, subst, ◌∙◌, ◌⊎◌, inl, inr, arith,
  Bool-cases,
}
use webports.Compat.Vectored.{
  Iovec, int_len, Progress, going, returned, on_result, one_buffer, buffers, writev,
}

-- What the system documents of `write`: `sent` is what the descriptor has taken, and `memory` what
-- stands at an address. It takes as many bytes as it returns.
pub record IsWrite {K : Type 0} (clear_errno : K → K) (write : ℕ → ℕ → K → K × ℤ)
    (sent : K → List ℕ) (memory : ℕ → ℕ → List ℕ) : Type 0 where
  pub clear-sent : (k : K) → sent (clear_errno k) ≡ sent k
  pub length-memory : (b n : ℕ) → length (memory b n) ≡ n
  pub split-memory : (b m n : ℕ) → m ≤ n → memory b n ≡ memory b m ++ memory (b + m) (n - m)
  pub done-sent :
      (b n : ℕ) (k : K) (r : ℕ)
      → (write b n k).1 ≡ pos r
      → (r ≤ n) × (sent (write b n k).0 ≡ sent k ++ memory b r)
  pub failed-sent :
      (b n : ℕ) (k : K) (e : ℕ) → (write b n k).1 ≡ negsuc e → sent (write b n k).0 ≡ sent k

no_items : (xs : List ℕ) → length xs ≡ 0 → xs ≡ []
no_items [] l = refl
no_items (x ∷ xs) l = absurd (omega arith)

module _ {K : Type 0} (clear_errno : K → K) (write : ℕ → ℕ → K → K × ℤ) (sent : K → List ℕ)
    (memory : ℕ → ℕ → List ℕ) (documented : IsWrite clear_errno write sent memory) where
  abbrev IsStop : ℤ → Type 0
  IsStop (pos zero) = Unit
  IsStop (pos (suc n)) = ⊥
  IsStop (negsuc n) = Unit

  -- What is returned when a call had this result and `n` bytes were sent before: their number, or -1
  -- if the call failed and there were none.
  abbrev pub answer : ℤ → ℕ → ℤ
  answer (pos r) n = pos n
  answer (negsuc e) zero = negsuc 0
  answer (negsuc e) (suc n) = pos (suc n)

  -- The last call of `write` was for a beginning of `rest`, when `before` was sent; it failed or took
  -- none, and its answer is returned with its state.
  abbrev pub Stops : ℕ → List ℕ → List ℕ → ℤ × K → Type 0
  Stops n before rest (ret, k) =
      (b : ℕ) × (m : ℕ) × (k1 : K) × (after : List ℕ) × (0 < m)
      × (sent k1 ≡ before)
      × (rest ≡ memory b m ++ after)
      × IsStop (write b m k1).1
      × (k ≡ (write b m k1).0)
      × (ret ≡ answer (write b m k1).1 n)

  -- Of `xs`, a beginning was sent behind `start`, and a call of `write` for what follows stopped.
  abbrev pub Halts : List ℕ → ℕ → List ℕ → ℤ × K → Type 0
  Halts xs n start r =
      (ws : List ℕ) × (rest : List ℕ) × (xs ≡ ws ++ rest)
      × (sent r.1 ≡ start ++ ws)
      × Stops (n + length ws) (start ++ ws) rest r

  -- All of it was sent and counted, or a call stopped the loop.
  abbrev pub Sends : List ℕ → ℕ → List ℕ → ℤ × K → Type 0
  Sends xs n start (ret, k) =
      ((sent k ≡ start ++ xs) × (ret ≡ pos (n + length xs))) ⊎ Halts xs n start (ret, k)

  abbrev Proceeds : List ℕ → ℕ → List ℕ → Progress K → Type 0
  Proceeds xs n start (going m k) = (sent k ≡ start ++ xs) × (m ≡ n + length xs)
  Proceeds xs n start (returned ret k) = Halts xs n start (ret, k)

  Halts-join :
      (ws ys : List ℕ) (n : ℕ) (start : List ℕ) (r : ℤ × K)
      → Halts ys (n + length ws) (start ++ ws) r
      → Halts (ws ++ ys) n start r
  Halts-join ws ys n start r (vs, rest, p, q, s) =
      let sizes = length-append ws vs in
      let z : (n + length ws) + length vs ≡ n + length (ws ++ vs) = omega arith in
      let y = append_assoc start ws vs in
      (
        ws ++ vs,
        rest,
        ap (λ l. ws ++ l) p ∙ sym (append_assoc ws vs rest),
        q ∙ y,
        subst (λ t. Stops (n + length (ws ++ vs)) t rest r) y
            (subst (λ m. Stops m ((start ++ ws) ++ vs) rest r) z s),
      )

  Halts-more :
      (xs ys : List ℕ) (n : ℕ) (start : List ℕ) (r : ℤ × K)
      → Halts xs n start r
      → Halts (xs ++ ys) n start r
  Halts-more xs ys n start r (ws, rest, p, q, (b, m, k1, after, l, e, f, g, h, i)) = (
    ws,
    rest ++ ys,
    ap (λ t. t ++ ys) p ∙ append_assoc ws rest ys,
    q,
    (
      b,
      m,
      k1,
      after ++ ys,
      l,
      e,
      ap (λ t. t ++ ys) f ∙ append_assoc (memory b m) after ys,
      g,
      h,
      i,
    ),
  )

  Sends-join :
      (ws ys : List ℕ) (n : ℕ) (start : List ℕ) (r : ℤ × K)
      → Sends ys (n + length ws) (start ++ ws) r
      → Sends (ws ++ ys) n start r
  Sends-join ws ys n start r (inl (p, q)) =
      let sizes = length-append ws ys in
      let z : (n + length ws) + length ys ≡ n + length (ws ++ ys) = omega arith in
      inl (p ∙ append_assoc start ws ys, q ∙ ap pos z)
  Sends-join ws ys n start r (inr h) = inr (Halts-join ws ys n start r h)

  Proceeds-join :
      (ws ys : List ℕ) (n : ℕ) (start : List ℕ) (m : Progress K)
      → Proceeds ys (n + length ws) (start ++ ws) m
      → Proceeds (ws ++ ys) n start m
  Proceeds-join ws ys n start (going m k) h =
      let s = length-append ws ys in (h.0 ∙ append_assoc start ws ys, omega (arith, h.1))
  Proceeds-join ws ys n start (returned ret k) h = Halts-join ws ys n start (ret, k) h

  nothing : (b n : ℕ) (k : K) → Proceeds (memory b 0) n (sent k) (going n k)
  nothing b n k =
      let z = no_items (memory b 0) (documented.length-memory b 0) in
      (
        sym (append-nil (sent k)) ∙ ap (λ l. sent k ++ l) (sym z),
        omega (arith, documented.length-memory b 0),
      )

  stopped :
      (b len n : ℕ) (k : K) (ret : ℤ)
      → 0 < len
      → sent (write b len k).0 ≡ sent k
      → IsStop (write b len k).1
      → ret ≡ answer (write b len k).1 n
      → Halts (memory b len) n (sent k) (ret, (write b len k).0)
  stopped b len n k ret l e s r =
      let y = append-nil (sent k) in
      let z : n ≡ n + 0 = omega arith in
      (
        [],
        memory b len,
        refl,
        e ∙ sym y,
        (
          b,
          len,
          k,
          [],
          l,
          sym y,
          sym (append-nil (memory b len)),
          s,
          refl,
          r ∙ ap (answer (write b len k).1) z,
        ),
      )

  failed-answer : (e n : ℕ) (r : ℤ) → r ≡ negsuc e → n ≢ 0 → pos n ≡ answer r n
  failed-answer e zero r w z = absurd (z refl)
  failed-answer e (suc n) r w z = rw w refl

  on_result-Proceeds :
      (later : ℕ → K → Progress K) (base len n : ℕ) (k : K) (ret : ℤ)
      → 0 < len
      → (write base len k).1 ≡ ret
      → ((r : ℕ) (k1 : K)
          → 0 < r
          → Proceeds (memory (base + r) (len - r)) (n + r) (sent k1) (later r k1))
      → Proceeds
          (memory base len)
          n
          (sent k)
          (on_result clear_errno write later n ret (write base len k).0)
  unfolding on_result
  on_result-Proceeds later base len n k (negsuc e) l w go =
      let stop : IsStop (write base len k).1 = subst IsStop (sym w) tt in
      let same = documented.failed-sent base len k e w in
      elim (Bool-cases (n == 0)) [
        | inl d ↦
            let z : n ≡ 0 = ground arith in
            rw d (
              stopped base len n k (negsuc 0) l same stop
                (sym (ap (λ r. answer r n) w ∙ ap (answer (negsuc e)) z)))
        | inr d ↦ rw d (
            stopped base len n k (pos n) l same stop
              (failed-answer e n (write base len k).1 w (ground arith)))
      ]
  on_result-Proceeds later base len n k (pos zero) l w go =
      let z = no_items (memory base 0) (documented.length-memory base 0) in
      let same : sent (write base len k).0 ≡ sent k =
        (documented.done-sent base len k 0 w).1 ∙ ap (λ t. sent k ++ t) z ∙ append-nil (sent k) in
      stopped base len n k (pos n) l same (subst IsStop (sym w) tt) (sym (ap (λ r. answer r n) w))
  on_result-Proceeds later base len n k (pos (suc r)) l w go =
      let k2 = clear_errno (write base len k).0 in
      let done = documented.done-sent base len k (suc r) w in
      let size = documented.length-memory base (suc r) in
      let ih = go (suc r) k2 (omega arith) in
      let there : sent k2 ≡ sent k ++ memory base (suc r) =
        documented.clear-sent (write base len k).0 ∙ done.1 in
      let count : n + suc r ≡ n + length (memory base (suc r)) = omega arith in
      subst (λ xs. Proceeds xs n (sent k) (later (suc r) k2))
        (sym (documented.split-memory base (suc r) len done.0))
        (Proceeds-join (memory base (suc r)) (memory (base + suc r) (len - suc r)) n (sent k)
          (later (suc r) k2)
          (subst
            (λ c.
              Proceeds (memory (base + suc r) (len - suc r)) c (sent k ++ memory base (suc r))
                (later (suc r) k2))
            count
            (subst
              (λ t. Proceeds (memory (base + suc r) (len - suc r)) (n + suc r) t (later (suc r) k2))
              there ih)))

  one_buffer-Proceeds :
      (fuel base len n : ℕ) (k : K)
      → len ≤ fuel
      → Proceeds (memory base len) n (sent k) (one_buffer clear_errno write fuel base len n k)
  unfolding one_buffer
  one_buffer-Proceeds zero base len n k l =
      let z : 0 ≡ len = omega arith in
      subst (λ m. Proceeds (memory base m) n (sent k) (going n k)) z (nothing base n k)
  one_buffer-Proceeds (suc fuel) base len n k l = elim (Bool-cases (len == 0)) [
    | inl d ↦
        let z : 0 ≡ len = ground arith in
        rw d (subst (λ m. Proceeds (memory base m) n (sent k) (going n k)) z (nothing base n k))
    | inr d ↦ rw d (
        on_result-Proceeds
          (λ r k2. one_buffer clear_errno write fuel (base + r) (len - r) (n + r) k2) base len n k
          (write base len k).1 (ground arith) refl
          (λ r k1 some_bytes.
            one_buffer-Proceeds fuel (base + r) (len - r) (n + r) k1 (omega arith)))
  ]

  -- What stands in the buffers, one behind the other.
  abbrev pub total : List Iovec → List ℕ
  total [] = []
  total (v ∷ rest) = memory v.iov_base (int_len v.iov_len) ++ total rest

  buffers-Sends :
      (iov : List Iovec) (n : ℕ) (k : K)
      → Sends (total iov) n (sent k) (buffers clear_errno write iov n k)
  unfolding buffers
  buffers-Sends [] n k =
      let z : n ≡ n + 0 = omega arith in inl (sym (append-nil (sent k)), ap pos z)
  buffers-Sends (v ∷ rest) n k =
      let xs = memory v.iov_base (int_len v.iov_len) in
      let m = one_buffer clear_errno write (int_len v.iov_len) v.iov_base (int_len v.iov_len) n k in
      elim m
          as (λ m.
            Proceeds xs n (sent k) m
            → Sends (xs ++ total rest) n (sent k) (elim m [
              | going n1 k1 ↦ buffers clear_errno write rest n1 k1
              | returned ret k1 ↦ (ret, k1)
            ])) [
              | going n1 k1 ↦ λ h.
                  let n2 : n1 ≡ n + length xs = h.1 in
                  Sends-join xs (total rest) n (sent k) (buffers clear_errno write rest n1 k1) (
                    subst
                      (λ c.
                        Sends (total rest) c (sent k ++ xs) (buffers clear_errno write rest n1 k1))
                      n2
                      (subst (λ t. Sends (total rest) n1 t (buffers clear_errno write rest n1 k1))
                        h.0 (buffers-Sends rest n1 k1)))
              | returned ret k1 ↦ λ h. inr (Halts-more xs (total rest) n (sent k) (ret, k1) h)
            ]
        (one_buffer-Proceeds (int_len v.iov_len) v.iov_base (int_len v.iov_len) n k (omega arith))

  -- If the system is as documented, `writev` sends the bytes of its buffers in their order: all of
  -- them, and it returns their number; or a beginning of them, up to a call of `write` for bytes that
  -- follow it, which failed or took nothing and is the last, and it returns how many were sent, or -1
  -- if that call failed and nothing was sent before.
  pub writev-Sends :
      (iov : List Iovec) (k : K) → Sends (total iov) 0 (sent k) (writev clear_errno write iov k)
  unfolding writev
  writev-Sends iov k =
      subst (λ t. Sends (total iov) 0 t (buffers clear_errno write iov 0 (clear_errno k)))
        (documented.clear-sent k) (buffers-Sends iov 0 (clear_errno k))
