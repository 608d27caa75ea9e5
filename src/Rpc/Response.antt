-- ===== src/Rpc/Response.antt =====
-- asio_service.cxx: a response as a session writes it and as the client reads it.
use cornerstone.Common.{
  ℕ, ◌+◌, ◌≡◌, refl, List, [], ◌∷◌, ◌++◌, length, Bool, true, false, arith, IsU64, IsU32, ◌==◌,
  if◌then◌else◌,
}
use cornerstone.Buffer.{
  Buffer, Result, ok, ◌>>=◌, alloc, set_pos, put_ulong, put_byte, put_int, get_ulong, get_byte,
  get_int, ulong_bytes, int_bytes,
}
use cornerstone.Buffer.Laws.{
  cursor, Fits, Fits-next, flat, alloc-puts, get_ulong-cursor, get_byte-cursor, get_int-cursor,
}
use cornerstone.Raft.Types.{RespMsg}
use cornerstone.Rpc.Types
use cornerstone.Rpc.Types.{type_byte, msg_type_of, type_byte-IsByte, msg_type_of-type_byte}

-- `RPC_RESP_HEADER_SIZE`
abbrev pub resp_header_size : ℕ
resp_header_size = 26

abbrev bool_byte : Bool → ℕ
bool_byte accepted = if accepted then 1 else 0

-- The bytes that `read_complete` makes of a response.
unfoldable pub encode_resp : RespMsg → Result Buffer
encode_resp resp = do
  b ← alloc resp_header_size
  b ← put_byte b (type_byte resp.type)
  b ← put_int b resp.src
  b ← put_int b resp.dst
  b ← put_ulong b resp.term
  b ← put_ulong b resp.next_idx
  b ← put_byte b (bool_byte resp.accepted)
  ok (set_pos b 0)

-- The response that `response_read` makes of the bytes it got.
unfoldable pub decode_resp : Buffer → Result RespMsg
decode_resp b = do
  (t, b) ← get_byte b
  (src, b) ← get_int b
  (dst, b) ← get_int b
  (term, b) ← get_ulong b
  (nxt_idx, b) ← get_ulong b
  (accepted_val, b) ← get_byte b
  ok (record {
    term = term;
    type = msg_type_of t;
    src = src;
    dst = dst;
    next_idx = nxt_idx;
    accepted = accepted_val == 1;
  })

-- A response with numbers of their widths and a type with a name.
pub record IsResp (resp : RespMsg) : Type 0 where
  pub type : Types.IsNamed resp.type
  pub src : IsU32 resp.src
  pub dst : IsU32 resp.dst
  pub term : IsU64 resp.term
  pub next_idx : IsU64 resp.next_idx

accepted_lem : (accepted : Bool) → (bool_byte accepted == 1) ≡ accepted
accepted_lem true = refl
accepted_lem false = refl

module _ (resp : RespMsg) where
  abbrev resp_parts : List (List ℕ)
  resp_parts =
      (type_byte resp.type ∷ [])
      ∷ int_bytes resp.src
      ∷ int_bytes resp.dst
      ∷ ulong_bytes resp.term
      ∷ ulong_bytes resp.next_idx
      ∷ (bool_byte resp.accepted ∷ [])
      ∷ []

  abbrev rest4 : List ℕ
  rest4 = bool_byte resp.accepted ∷ []

  abbrev rest3 : List ℕ
  rest3 = ulong_bytes resp.next_idx ++ rest4

  abbrev rest2 : List ℕ
  rest2 = ulong_bytes resp.term ++ rest3

  abbrev rest1 : List ℕ
  rest1 = int_bytes resp.dst ++ rest2

  abbrev rest0 : List ℕ
  rest0 = int_bytes resp.src ++ rest1

  abbrev done0 : List ℕ
  done0 = type_byte resp.type ∷ []

  abbrev done1 : List ℕ
  done1 = done0 ++ int_bytes resp.src

  abbrev done2 : List ℕ
  done2 = done1 ++ int_bytes resp.dst

  abbrev done3 : List ℕ
  done3 = done2 ++ ulong_bytes resp.term

  abbrev done4 : List ℕ
  done4 = done3 ++ ulong_bytes resp.next_idx

  length-resp : length (flat resp_parts) ≡ 26
  unfolding int_bytes ulong_bytes
  length-resp = refl

  fits0 : Fits (length done0 + length rest0)
  fits0 = omega (arith, length-resp)

  fits1 : Fits (length done1 + length rest1)
  fits1 = Fits-next done0 (int_bytes resp.src) rest1 fits0

  fits2 : Fits (length done2 + length rest2)
  fits2 = Fits-next done1 (int_bytes resp.dst) rest2 fits1

  fits3 : Fits (length done3 + length rest3)
  fits3 = Fits-next done2 (ulong_bytes resp.term) rest3 fits2

  fits4 : Fits (length done4 + length rest4)
  fits4 = Fits-next done3 (ulong_bytes resp.next_idx) rest4 fits3

  encode_resp-parts : encode_resp resp ≡ ok (cursor [] (flat resp_parts))
  unfolding encode_resp put_byte put_int put_ulong
  encode_resp-parts = alloc-puts 26 resp_parts (omega arith) length-resp

  decode_resp-parts : IsResp resp → decode_resp (cursor [] (flat resp_parts)) ≡ ok resp
  unfolding decode_resp int_bytes ulong_bytes
  decode_resp-parts v =
      rw
        (
          get_byte-cursor [] rest0 (type_byte resp.type) (type_byte-IsByte resp.type v.type) fits0,
          get_int-cursor done0 rest1 resp.src v.src fits0,
          get_int-cursor done1 rest2 resp.dst v.dst fits1,
          get_ulong-cursor done2 rest3 resp.term v.term fits2,
          get_ulong-cursor done3 rest4 resp.next_idx v.next_idx fits3,
          get_byte-cursor done4 [] (bool_byte resp.accepted) (ground arith) fits4,
          accepted_lem resp.accepted,
          msg_type_of-type_byte resp.type v.type,
        )
        refl

-- The response that the client reads from the bytes that a session makes of a response is the
-- response, where its numbers have their widths and its type has a name.
decode_resp-encode_resp :
    (resp : RespMsg) → IsResp resp → (encode_resp resp >>= decode_resp) ≡ ok resp
decode_resp-encode_resp resp v = rw (encode_resp-parts resp) (decode_resp-parts resp v)
