-- ===== src/Spawn/Apipe.antt =====
-- ports/nacl-spawn/nacl_apipe.c: pipes whose other end is in the browser. `pipe_id` is `info->fh`.
pub mod Delivers
mod Examples
use webports.Prelude.{
  ℕ, zero, suc, ◌+◌, ℤ, pos, negsuc, eq_int, Bool, true, false, ◌&&◌, List, [], ◌∷◌, length, Option,
  none, some, ltb, leb, ◌==◌, if◌then◌else◌,
}
use webports.Spawn.Var.{
  PpVar, array_buffer, null, Pepper, dict_create, dict_get, dict_set, dict_setint, dict_setstring,
  dict_getint,
}

-- What the code calls besides: the request to the browser, `nspawn_send_request`, the interface of
-- array buffers, `sscanf` of "/%d", and `nacl_io_register_fs_type`, `mkdir` and `mount`.
pub record PipeHost (K : Type 0) : Type 0 where
  pub send_request : PpVar → K → K × PpVar
  pub byte_length : PpVar → K → Option ℕ
  pub map_bytes : PpVar → K → Option (List ℕ)
  pub unmap : PpVar → K → K
  pub create : ℕ → K → K × PpVar
  pub fill : PpVar → List ℕ → K → K
  pub scan_id : List ℕ → Option ℤ
  pub register : K → K × Bool
  pub mkdir : K → K
  pub mount : K → K × ℤ

abbrev pub enoent : ℕ
enoent = 2

abbrev pub eio : ℕ
eio = 5

-- The names of commands and of keys.
abbrev command_text : List ℕ
command_text = 99 ∷ 111 ∷ 109 ∷ 109 ∷ 97 ∷ 110 ∷ 100 ∷ []

abbrev pipe_id_text : List ℕ
pipe_id_text = 112 ∷ 105 ∷ 112 ∷ 101 ∷ 95 ∷ 105 ∷ 100 ∷ []

abbrev count_text : List ℕ
count_text = 99 ∷ 111 ∷ 117 ∷ 110 ∷ 116 ∷ []

abbrev nonblock_text : List ℕ
nonblock_text = 110 ∷ 111 ∷ 110 ∷ 98 ∷ 108 ∷ 111 ∷ 99 ∷ 107 ∷ []

abbrev pub data_text : List ℕ
data_text = 100 ∷ 97 ∷ 116 ∷ 97 ∷ []

abbrev pub error_text : List ℕ
error_text = 101 ∷ 114 ∷ 114 ∷ 111 ∷ 114 ∷ []

abbrev writer_text : List ℕ
writer_text = 119 ∷ 114 ∷ 105 ∷ 116 ∷ 101 ∷ 114 ∷ []

abbrev result_text : List ℕ
result_text = 114 ∷ 101 ∷ 115 ∷ 117 ∷ 108 ∷ 116 ∷ []

abbrev nacl_apipe_read_text : List ℕ
nacl_apipe_read_text =
    110 ∷ 97 ∷ 99 ∷ 108 ∷ 95 ∷ 97 ∷ 112 ∷ 105 ∷ 112 ∷ 101 ∷ 95 ∷ 114 ∷ 101 ∷ 97 ∷ 100 ∷ []

abbrev nacl_apipe_write_text : List ℕ
nacl_apipe_write_text =
    110 ∷ 97 ∷ 99 ∷ 108 ∷ 95 ∷ 97 ∷ 112 ∷ 105 ∷ 112 ∷ 101 ∷ 95 ∷ 119 ∷ 114 ∷ 105 ∷ 116 ∷ 101 ∷ []

abbrev nacl_apipe_close_text : List ℕ
nacl_apipe_close_text =
    110 ∷ 97 ∷ 99 ∷ 108 ∷ 95 ∷ 97 ∷ 112 ∷ 105 ∷ 112 ∷ 101 ∷ 95 ∷ 99 ∷ 108 ∷ 111 ∷ 115 ∷ 101 ∷ []

-- `-n`
abbrev pub negate : ℤ → ℤ
negate (pos zero) = pos 0
negate (pos (suc n)) = negsuc n
negate (negsuc n) = pos (suc n)

abbrev flag : Bool → ℤ
flag b = if b then pos 1 else pos 0

abbrev pub is_array_buffer : PpVar → Bool
is_array_buffer (array_buffer _) = true
is_array_buffer _ = false

abbrev is_null : PpVar → Bool
is_null null = true
is_null _ = false

abbrev pub take : ℕ → List ℕ → List ℕ
take zero xs = []
take (suc n) [] = []
take (suc n) (x ∷ xs) = x ∷ take n xs

-- A result with the bytes that were copied to the caller's buffer, or a failed assertion.
pub data Reply (K : Type 0) : Type 0 where
  gives : ℤ → List ℕ → K → Reply K
  fault : Reply K

-- `apipe_open`: an error, or the pipe's number.
unfoldable pub apipe_open : {K : Type 0} → PipeHost K → List ℕ → ℤ × Option ℤ
apipe_open host path = elim (host.scan_id path) [
  | none ↦ (negate (pos enoent), none)
  | some id ↦ (pos 0, some id)
]

module _ {K : Type 0} (pp : Pepper K) (host : PipeHost K) where
  -- `apipe_read` behind the length of the data, `none` if it has none.
  unfoldable pub read_length : PpVar → PpVar → ℕ → Option ℕ → K → Reply K
  read_length result_var data_var count none k =
      gives (negate (pos eio)) [] (pp.release result_var (pp.release data_var k))
  read_length result_var data_var count (some len) k =
      let released = pp.release result_var (pp.release data_var k) in
      let bytes = host.map_bytes data_var k in
      elim bytes [
        | none ↦
            if ltb 0 len
            then gives (negate (pos eio)) [] released
            else gives (pos len) []
                (pp.release result_var (pp.release data_var (host.unmap data_var k)))
        | some p ↦
            if leb len count
            then gives (pos len) (take len p)
                (pp.release result_var (pp.release data_var (host.unmap data_var k)))
            else fault
      ]

  -- Behind the error of the reply; `none` is a failed assertion.
  unfoldable pub read_reply : PpVar → ℕ → Option ℤ → K → Reply K
  unfolding read_length
  read_reply result_var count none k = fault
  read_reply result_var count (some err) k =
      let (k1, data_var) = dict_get pp result_var data_text k in
      if eq_int err (pos 0)
      then (if is_array_buffer data_var
          then read_length result_var data_var count (host.byte_length data_var k1) k1
          else fault)
      else gives (negate err) [] (pp.release result_var k)

  -- The request of `apipe_read`, with the state behind it and the reply; `nonblock` is that flag of
  -- `info->flags`.
  unfoldable pub read_request : ℤ → ℕ → Bool → K → K × PpVar
  read_request pipe_id count nonblock k =
      let (k1, req_var) = dict_create pp k in
      let k2 = dict_setstring pp req_var command_text nacl_apipe_read_text k1 in
      let k3 = dict_setint pp req_var pipe_id_text pipe_id k2 in
      let k4 = dict_setint pp req_var count_text (pos count) k3 in
      host.send_request req_var (dict_setint pp req_var nonblock_text (flag nonblock) k4)

  -- `apipe_read`
  unfoldable pub apipe_read : ℤ → ℕ → Bool → K → Reply K
  unfolding read_request read_reply
  apipe_read pipe_id count nonblock k =
      let (k1, result_var) = read_request pipe_id count nonblock k in
      let (k2, err) = dict_getint pp result_var error_text k1 in read_reply result_var count err k2

  -- The reply to a request that gives a number.
  unfoldable pub number_reply : PpVar → List ℕ → K → Reply K
  number_reply req_var key k =
      let (k1, result_var) = host.send_request req_var k in
      let (k2, ret) = dict_getint pp result_var key k1 in
      elim ret [ none ↦ fault | some r ↦ gives r [] (pp.release result_var k2) ]

  -- `apipe_write`
  unfoldable pub apipe_write : ℤ → List ℕ → K → Reply K
  unfolding number_reply
  apipe_write pipe_id buf k =
      let (k1, req_var) = dict_create pp k in
      let k2 = dict_setstring pp req_var command_text nacl_apipe_write_text k1 in
      let k3 = dict_setint pp req_var pipe_id_text pipe_id k2 in
      let (k4, data_var) = host.create (length buf) k3 in
      let sent = number_reply req_var count_text (
        dict_set pp req_var data_text data_var (host.unmap data_var (host.fill data_var buf k4))) in
      if length buf == 0
      then gives (pos 0) [] k
      else if is_null data_var
      then gives (negate (pos eio)) [] k4
      else elim (host.map_bytes data_var k4) [
        | none ↦ gives (negate (pos eio)) [] (pp.release req_var (pp.release data_var k4))
        | some p ↦ sent
      ]

  -- `apipe_release`; `writer` is whether `info->flags` has `O_WRONLY`.
  unfoldable pub apipe_release : ℤ → Bool → K → Reply K
  unfolding number_reply
  apipe_release pipe_id writer k =
      let (k1, req_var) = dict_create pp k in
      let k2 = dict_setstring pp req_var command_text nacl_apipe_close_text k1 in
      let k3 = dict_setint pp req_var pipe_id_text pipe_id k2 in
      number_reply req_var result_text (dict_setint pp req_var writer_text (flag writer) k3)

-- `nspawn_setup_anonymous_pipes`: 0, or 1 if the file system cannot be registered or mounted.
unfoldable pub setup_anonymous_pipes : {K : Type 0} → PipeHost K → K → K × ℕ
setup_anonymous_pipes host k =
    let (k1, registered) = host.register k in
    let (k2, result) = host.mount (host.mkdir k1) in
    if registered then (if eq_int result (pos 0) then (k2, 0) else (k2, 1)) else (k1, 1)
