-- ===== src/Rpc/RoundTrip.antt =====
-- asio_service.cxx: what a session reads of a request that a client sends.
use cornerstone.Common.{
  ℕ, ◌+◌, ◌*◌, ◌≤◌, ◌≡◌, ◌^◌, ◌%◌, refl, sym, ap, ◌∙◌, List, [], ◌∷◌, ◌++◌, length, Option, some,
  arith, to_ulong, IsU64, IsU32, All, append_assoc, length-append, take, drop, lt→ltb, le→ltb_false,
}
use cornerstone.Buffer.{
  Buffer, Result, ok, ◌>>=◌, alloc, set_pos, size, put_ulong, put_byte, put_int, get_int,
  ulong_bytes, int_bytes,
}
use cornerstone.Buffer.Laws.{
  cursor, Fits, Fits-next, flat, puts, alloc-puts, get_ulong-cursor, get_byte-cursor,
  get_int-cursor,
}
use cornerstone.Codec.Entry.{LogEntry}
use cornerstone.Codec.Config.{put_all, cursors, total_size-cursors, put_all-puts}
use cornerstone.Raft.Types.{ReqMsg}
use cornerstone.Rpc.Types
use cornerstone.Rpc.Types.{type_byte, msg_type_of, type_byte-IsByte, msg_type_of-type_byte}
use cornerstone.Rpc.Request.{req_header_size, encode_req, decode_data, decode_req, data_size}
use cornerstone.Rpc.Entries.{
  wire_entry, wire_entries, IsSendable, length-wire_entry, small, encode_entries-wire,
  decode_entries-wire,
}

-- The bytes of a request: the header, and the entries.
abbrev pub wire_data : ReqMsg → List ℕ
wire_data req = flat (wire_entries req.log_entries)

abbrev pub header_parts : ReqMsg → List (List ℕ)
header_parts req =
    (type_byte req.type ∷ [])
    ∷ int_bytes req.src
    ∷ int_bytes req.dst
    ∷ ulong_bytes req.term
    ∷ ulong_bytes req.last_log_term
    ∷ ulong_bytes req.last_log_idx
    ∷ ulong_bytes req.commit_idx
    ∷ int_bytes (length (wire_data req))
    ∷ []

-- A request that can be sent: numbers of their widths, a type with a name, and no more log data than
-- a session takes.
pub record IsReq (req : ReqMsg) : Type 0 where
  pub type : Types.IsNamed req.type
  pub src : IsU32 req.src
  pub dst : IsU32 req.dst
  pub term : IsU64 req.term
  pub last_log_term : IsU64 req.last_log_term
  pub last_log_idx : IsU64 req.last_log_idx
  pub commit_idx : IsU64 req.commit_idx
  pub entries : All IsSendable req.log_entries
  pub bytes : length (wire_data req) ≤ 0x1000000

flat-append : (xss yss : List (List ℕ)) → flat (xss ++ yss) ≡ flat xss ++ flat yss
flat-append [] yss = refl
flat-append (xs ∷ xss) yss =
    ap (◌++◌ xs) (flat-append xss yss) ∙ sym (append_assoc xs (flat xss) (flat yss))

length-header : (req : ReqMsg) → length (flat (header_parts req)) ≡ 45
unfolding int_bytes ulong_bytes
length-header req = refl

encode_req-wire :
    (req : ReqMsg)
    → IsReq req
    → encode_req req ≡ ok (cursor [] (flat (header_parts req) ++ wire_data req))
unfolding encode_req put_byte put_int put_ulong
encode_req-wire req v =
    rw
      (
        encode_entries-wire req.log_entries (omega (arith, v.bytes)),
        total_size-cursors (wire_entries req.log_entries),
        small (length (wire_data req)) (omega (arith, v.bytes)),
        whole,
      )
      (joined
        ∙ alloc-puts n (header_parts req ++ wire_entries req.log_entries) (omega (arith, v.bytes))
            total
        ∙ ap (λ bs. ok (cursor [] bs))
            (flat-append (header_parts req) (wire_entries req.log_entries)))
  where
    n : ℕ
    n = 45 + length (wire_data req)

    whole : to_ulong ((45 + length (wire_data req)) % 2 ^ 32) ≡ n
    whole = ground (arith, v.bytes)

    total : length (flat (header_parts req ++ wire_entries req.log_entries)) ≡ n
    total =
        ap length (flat-append (header_parts req) (wire_entries req.log_entries))
        ∙ omega (arith, length-append (flat (header_parts req)) (wire_data req), length-header req)

    done : Buffer → Result Buffer
    done b = ok (set_pos b 0)

    joined :
        (alloc n >>= λ b.
        puts b
          (header_parts req)
          (λ b'. put_all b' (cursors (wire_entries req.log_entries)) >>= done))
        ≡ (alloc n >>= λ b. puts b (header_parts req ++ wire_entries req.log_entries) done)
    joined = λ i. alloc n >>= λ b.
        puts b (header_parts req) (λ b'. put_all-puts b' (wire_entries req.log_entries) done i)

-- The header from each of its fields on.
module _ (req : ReqMsg) where
  abbrev rest6 : List ℕ
  rest6 = int_bytes (length (wire_data req)) ++ []

  abbrev rest5 : List ℕ
  rest5 = ulong_bytes req.commit_idx ++ rest6

  abbrev rest4 : List ℕ
  rest4 = ulong_bytes req.last_log_idx ++ rest5

  abbrev rest3 : List ℕ
  rest3 = ulong_bytes req.last_log_term ++ rest4

  abbrev rest2 : List ℕ
  rest2 = ulong_bytes req.term ++ rest3

  abbrev rest1 : List ℕ
  rest1 = int_bytes req.dst ++ rest2

  abbrev rest0 : List ℕ
  rest0 = int_bytes req.src ++ rest1

  abbrev done0 : List ℕ
  done0 = type_byte req.type ∷ []

  abbrev done1 : List ℕ
  done1 = done0 ++ int_bytes req.src

  abbrev done2 : List ℕ
  done2 = done1 ++ int_bytes req.dst

  abbrev done3 : List ℕ
  done3 = done2 ++ ulong_bytes req.term

  abbrev done4 : List ℕ
  done4 = done3 ++ ulong_bytes req.last_log_term

  abbrev done5 : List ℕ
  done5 = done4 ++ ulong_bytes req.last_log_idx

  abbrev done6 : List ℕ
  done6 = done5 ++ ulong_bytes req.commit_idx

  fits0 : Fits (length done0 + length rest0)
  fits0 = omega (arith, length-header req)

  fits1 : Fits (length done1 + length rest1)
  fits1 = Fits-next done0 (int_bytes req.src) rest1 fits0

  fits2 : Fits (length done2 + length rest2)
  fits2 = Fits-next done1 (int_bytes req.dst) rest2 fits1

  fits3 : Fits (length done3 + length rest3)
  fits3 = Fits-next done2 (ulong_bytes req.term) rest3 fits2

  fits4 : Fits (length done4 + length rest4)
  fits4 = Fits-next done3 (ulong_bytes req.last_log_term) rest4 fits3

  fits5 : Fits (length done5 + length rest5)
  fits5 = Fits-next done4 (ulong_bytes req.last_log_idx) rest5 fits4

  fits6 : Fits (length done6 + length rest6)
  fits6 = Fits-next done5 (ulong_bytes req.commit_idx) rest6 fits5

  size_lem :
      IsReq req
      → get_int (cursor done6 rest6)
        ≡ ok (length (wire_data req), cursor (done6 ++ int_bytes (length (wire_data req))) [])
  size_lem v = get_int-cursor done6 [] (length (wire_data req)) (omega (arith, v.bytes)) fits6

  fields_lem :
      IsReq req
      → (behind : List ℕ) (log_data : Option (List ℕ)) (es : List LogEntry)
      → decode_data behind (length (wire_data req)) log_data ≡ ok es
      → decode_req behind (flat (header_parts req)) log_data ≡ ok (record req { log_entries = es })
  unfolding decode_req int_bytes ulong_bytes
  fields_lem v behind log_data es h =
      rw
        (
          get_byte-cursor [] rest0 (type_byte req.type) (type_byte-IsByte req.type v.type) fits0,
          get_int-cursor done0 rest1 req.src v.src fits0,
          get_int-cursor done1 rest2 req.dst v.dst fits1,
          get_ulong-cursor done2 rest3 req.term v.term fits2,
          get_ulong-cursor done3 rest4 req.last_log_term v.last_log_term fits3,
          get_ulong-cursor done4 rest5 req.last_log_idx v.last_log_idx fits4,
          get_ulong-cursor done5 rest6 req.commit_idx v.commit_idx fits5,
          size_lem v,
          h,
          msg_type_of-type_byte req.type v.type,
        )
        refl

  at_size : set_pos (cursor [] (flat (header_parts req))) 41 ≡ cursor done6 rest6
  unfolding set_pos size int_bytes ulong_bytes
  at_size = refl

  data_size_lem :
      IsReq req → data_size (flat (header_parts req)) ≡ ok (some (length (wire_data req)))
  unfolding data_size
  data_size_lem v =
      rw (at_size, size_lem v, le→ltb_false 0x1000000 (length (wire_data req)) v.bytes) refl

  first_part :
      take req_header_size (flat (header_parts req) ++ wire_data req) ≡ flat (header_parts req)
  unfolding int_bytes ulong_bytes
  first_part = refl

  second_part : drop req_header_size (flat (header_parts req) ++ wire_data req) ≡ wire_data req
  unfolding int_bytes ulong_bytes
  second_part = refl

count_le : (es : List LogEntry) → 13 * length es ≤ length (flat (wire_entries es))
count_le [] = omega arith
count_le (e ∷ es) =
    omega (
      arith,
      count_le es,
      length-append (wire_entry e) (flat (wire_entries es)),
      length-wire_entry e,
    )

decode_data-wire :
    (behind : List ℕ) (es : List LogEntry)
    → All IsSendable es
    → length (flat (wire_entries es)) ≤ 0x1000000
    → decode_data behind (length (flat (wire_entries es))) (some (flat (wire_entries es))) ≡ ok es
unfolding decode_data
decode_data-wire behind [] v h = refl
decode_data-wire behind (e ∷ es) v h =
    rw
      (
        lt→ltb 0 n (omega (arith, count_le (e ∷ es))),
        lt→ltb n (2 ^ 31) (omega (arith, h)),
        decode_entries-wire behind n [] (e ∷ es) v (omega (arith, h))
            (omega (arith, count_le (e ∷ es))),
      )
      refl
  where
    n : ℕ
    n = length (flat (wire_entries (e ∷ es)))

-- The request that a session makes of the bytes that a client sends is the request: the first 45
-- bytes are the header, which announces the size of the rest, and the rest holds the entries. The
-- request has numbers of their widths, types with names and at most 16 MB of log data;
-- what stands behind the log data in memory makes no difference.
pub decode_req-encode_req :
    (req : ReqMsg) (behind : List ℕ)
    → IsReq req
    → ((encode_req req >>= λ b.
          decode_req behind (take req_header_size b.bytes) (some (drop req_header_size b.bytes)))
        ≡ ok req)
      × ((encode_req req >>= λ b. data_size (take req_header_size b.bytes))
          ≡ ok (some (length (wire_data req))))
decode_req-encode_req req behind v = (
  rw (encode_req-wire req v, first_part req, second_part req)
      (fields_lem req v behind (some (wire_data req)) req.log_entries
        (decode_data-wire behind req.log_entries v.entries v.bytes)),
  rw (encode_req-wire req v, first_part req) (data_size_lem req v),
)
