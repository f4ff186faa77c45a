-- ===== src/Spawn/Apipe/Delivers.antt =====
-- What `apipe_read` of ports/nacl-spawn/nacl_apipe.c copies and returns.
use webports.Prelude.{
  ℕ, ◌≤◌, ◌<◌, true, false, ◌∙◌, subst, ℤ, pos, negsuc, eq_int, Bool, List, [], ◌∷◌, length, Option,
  none, some, ltb, leb, if◌then◌else◌, ◌≡◌, refl, sym, ap, ◌⊎◌, inl, inr, arith, Bool-cases,
}
use webports.Spawn.Var.{PpVar, Pepper, dict_get, dict_getint}
use webports.Spawn.Apipe.{
  PipeHost, Reply, gives, fault, negate, eio, data_text, error_text, read_request, is_array_buffer,
  take, read_length, read_reply, apipe_read,
}

-- Why nothing is copied, and the result then: the error of the reply, negated; or data without a
-- length, or that cannot be mapped though it has bytes, which is EIO; or no bytes, which is 0.
abbrev pub Refuses : Option ℤ → Option ℕ → Option (List ℕ) → ℤ → Type 0
Refuses err len mapped r =
    ((e : ℤ) × (err ≡ some e) × (eq_int e (pos 0) ≡ false) × (r ≡ negate e))
    ⊎ ((len ≡ none) × (r ≡ negate (pos eio)))
    ⊎ ((mapped ≡ none) × (len ≡ some 0) × (r ≡ pos 0))
    ⊎ ((n : ℕ) × (mapped ≡ none) × (len ≡ some n) × (0 < n) × (r ≡ negate (pos eio)))

-- A reply with the error `err`, and the variable `data_var` of length `len` that is mapped as
-- `mapped`: all of its bytes are copied, are no more than `count`, and their number is the result; or
-- none is copied. An assertion fails only if there is no number for the error, the data is no array
-- buffer, or it has more bytes than asked for.
abbrev pub Delivers :
    {K : Type 0} → ℕ → Option ℤ → PpVar → Option ℕ → Option (List ℕ) → Reply K → Type 0
Delivers count err data_var len mapped (gives r bytes k) =
    ((p : List ℕ) × (err ≡ some (pos 0))
      × (mapped ≡ some p)
      × (bytes ≡ p)
      × (r ≡ pos (length p))
      × (length p ≤ count))
    ⊎ ((bytes ≡ []) × Refuses err len mapped r)
Delivers count err data_var len mapped fault =
    (err ≡ none)
    ⊎ (is_array_buffer data_var ≡ false)
    ⊎ ((p : List ℕ) × (mapped ≡ some p) × (count < length p))

take-length : (xs : List ℕ) → take (length xs) xs ≡ xs
take-length [] = refl
take-length (x ∷ xs) = ap (λ ys. x ∷ ys) (take-length xs)

eq_int-zero : (e : ℤ) → eq_int e (pos 0) ≡ true → e ≡ pos 0
eq_int-zero (pos n) d = let z : n ≡ 0 = ground arith in ap pos z
eq_int-zero (negsuc n) d = cc

module _ {K : Type 0} (pp : Pepper K) (host : PipeHost K) where
  -- What the interface documents of array buffers: what is mapped is as long as the buffer.
  abbrev pub MapsAll : Type 0
  MapsAll =
      (data_var : PpVar) (k : K) (len : ℕ) (bytes : List ℕ)
      → host.byte_length data_var k ≡ some len
      → host.map_bytes data_var k ≡ some bytes
      → length bytes ≡ len

  read_length-Delivers :
      (result_var data_var : PpVar) (count : ℕ) (len : Option ℕ) (k : K)
      → MapsAll
      → host.byte_length data_var k ≡ len
      → Delivers count
          (some (pos 0))
          data_var
          len
          (host.map_bytes data_var k)
          (read_length pp host result_var data_var count len k)
  unfolding read_length
  read_length-Delivers result_var data_var count none k maps e = inr (refl, inr (inl (refl, refl)))
  read_length-Delivers result_var data_var count (some len) k maps e =
      (elim (host.map_bytes data_var k)
          as (λ bytes.
            host.map_bytes data_var k ≡ bytes
            → Delivers count (some (pos 0)) data_var (some len) bytes (elim bytes [
              | none ↦
                  if ltb 0 len
                  then gives (negate (pos eio)) [] (pp.release result_var (pp.release data_var k))
                  else gives (pos len) []
                      (pp.release result_var (pp.release data_var (host.unmap data_var k)))
              | some p ↦
                  if leb len count
                  then gives (pos len) (take len p)
                      (pp.release result_var (pp.release data_var (host.unmap data_var k)))
                  else fault
            ])) [
              | none ↦ λ f. elim (Bool-cases (ltb 0 len)) [
                | inl d ↦ rw d (inr (refl, inr (inr (inr (len, refl, refl, ground arith, refl)))))
                | inr d ↦
                    let z : len ≡ 0 = ground arith in
                    rw d (inr (refl, inr (inr (inl (refl, ap some z, ap pos z)))))
              ]
              | some p ↦ λ f.
                  let whole : length p ≡ len = maps data_var k len p e f in
                  elim (Bool-cases (leb len count)) [
                    | inl d ↦ rw d (
                        inl (
                          p,
                          refl,
                          refl,
                          ap (λ n. take n p) (sym whole) ∙ take-length p,
                          ap pos (sym whole),
                          ground arith,
                        ))
                    | inr d ↦ rw d (inr (inr (p, refl, ground arith)))
                  ]
            ])
        refl

  -- The outcome for a reply, whose data is that of its dictionary.
  abbrev pub Answers : ℕ → PpVar → Option ℤ → K → Reply K → Type 0
  Answers count result_var err k =
      let got = dict_get pp result_var data_text k in
      Delivers count err got.1 (host.byte_length got.1 got.0) (host.map_bytes got.1 got.0)

  read_reply-Answers :
      (result_var : PpVar) (count : ℕ) (err : Option ℤ) (k : K)
      → MapsAll
      → Answers count result_var err k (read_reply pp host result_var count err k)
  unfolding read_reply
  read_reply-Answers result_var count none k maps = inl refl
  read_reply-Answers result_var count (some err) k maps =
      let got = dict_get pp result_var data_text k in
      elim (Bool-cases (eq_int err (pos 0))) [
        | inl d ↦
            let z = eq_int-zero err d in
            elim (Bool-cases (is_array_buffer got.1)) [
              | inl a ↦
                  rw (d, a)
                    (subst
                      (λ e.
                        Delivers count (some e) got.1 (host.byte_length got.1 got.0)
                          (host.map_bytes got.1 got.0)
                          (read_length pp host result_var got.1 count (host.byte_length got.1 got.0)
                            got.0))
                      (sym z)
                      (read_length-Delivers result_var got.1 count (host.byte_length got.1 got.0)
                        got.0 maps refl))
              | inr a ↦ rw (d, a) (inr (inl a))
            ]
        | inr d ↦ rw d (inr (refl, inl (err, refl, d, refl)))
      ]

  -- Where the browser's buffers are mapped whole, `apipe_read` copies all the bytes of the reply's
  -- data, which are no more than the caller asked for, and returns their number; or it copies nothing
  -- and returns the negated error of the reply, EIO for data that has no length or is not mapped, or 0
  -- for data without bytes. An assertion fails only if the error is no number or the data no array
  -- buffer, or has more bytes than asked for.
  pub apipe_read-Delivers :
      (pipe_id : ℤ) (count : ℕ) (nonblock : Bool) (k : K)
      → MapsAll
      → (let sent = read_request pp host pipe_id count nonblock k in
          let found = dict_getint pp sent.1 error_text sent.0 in
          Answers count sent.1 found.1 found.0 (apipe_read pp host pipe_id count nonblock k))
  unfolding apipe_read
  apipe_read-Delivers pipe_id count nonblock k maps =
      let sent = read_request pp host pipe_id count nonblock k in
      let found = dict_getint pp sent.1 error_text sent.0 in
      read_reply-Answers sent.1 count found.1 found.0 maps
