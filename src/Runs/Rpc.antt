-- ===== src/Runs/Rpc.antt =====
-- The theorems on the messages at concrete values.
use cornerstone.Common.{
  ◌≢◌, ℕ, ◌≡◌, ◌+◌, List, [], ◌∷◌, true, arith, Option, none, some, take, drop,
}
use cornerstone.Buffer.{ok, err, endless, ◌>>=◌, ulong_bytes, int_bytes}
use cornerstone.Codec.Entry.{LogEntry, app_log}
use cornerstone.Raft.Types.{ReqMsg, RespMsg, append_entries_request, append_entries_response}
use cornerstone.Rpc.Request.{encode_req, decode_req, data_size, decode_entries}
use cornerstone.Rpc.RoundTrip.{decode_req-encode_req}
use cornerstone.Rpc.Bounds.{entry_block, decode_entries-endless}
use cornerstone.Rpc.Session.{stopped, responding, read_complete, read_complete-Silent}

abbrev an_entry : LogEntry
an_entry = record { term = 3; val_type = app_log; buf = 7 ∷ 8 ∷ [] }

abbrev a_req : ReqMsg
a_req = record {
  term = 3;
  type = append_entries_request;
  src = 1;
  dst = 2;
  last_log_term = 2;
  last_log_idx = 41;
  commit_idx = 40;
  log_entries = an_entry ∷ an_entry ∷ [];
}

abbrev a_resp : RespMsg
a_resp = record {
  term = 3;
  type = append_entries_response;
  src = 2;
  dst = 1;
  next_idx = 43;
  accepted = true;
}

decode_req-encode_req_example :
    ((encode_req a_req >>= λ b. decode_req [] (take 45 b.bytes) (some (drop 45 b.bytes)))
      ≡ ok a_req)
    × ((encode_req a_req >>= λ b. data_size (take 45 b.bytes)) ≡ ok (some 30))
unfolding ulong_bytes int_bytes
decode_req-encode_req_example = decode_req-encode_req a_req [] record {
  type = tt;
  src = omega arith;
  dst = omega arith;
  term = omega arith;
  last_log_term = omega arith;
  last_log_idx = omega arith;
  commit_idx = omega arith;
  entries =
      (record { term = omega arith; named = tt }, (record { term = omega arith; named = tt }, tt));
  bytes = omega arith;
}

-- A handler that counts its requests.
abbrev counting : ReqMsg → ℕ → Option RespMsg × ℕ
counting req n = (some a_resp, n + 1)

abbrev a_header : List ℕ
a_header =
    3 ∷ 1 ∷ 0 ∷ 0 ∷ 0 ∷ 2 ∷ 0 ∷ 0 ∷ 0 ∷ 3 ∷ 0 ∷ 0 ∷ 0 ∷ 0 ∷ 0 ∷ 0 ∷ 0 ∷ 2 ∷ 0 ∷ 0 ∷ 0 ∷ 0 ∷ 0 ∷ 0
    ∷ 0 ∷ 41 ∷ 0 ∷ 0 ∷ 0 ∷ 0 ∷ 0 ∷ 0 ∷ 0 ∷ 40 ∷ 0 ∷ 0 ∷ 0 ∷ 0 ∷ 0 ∷ 0 ∷ 0 ∷ 0 ∷ 0 ∷ 0 ∷ 0 ∷ []

read_complete-Silent_example :
    ((bytes : List ℕ) → (read_complete (1 ∷ []) counting a_header none 5).0 ≢ responding bytes)
    × ((req : ReqMsg) (resp : RespMsg)
        → decode_req (1 ∷ []) a_header none ≡ ok req
        → (counting req 5).0 ≡ some resp
        → read_complete (1 ∷ []) counting a_header none 5 ≡ (stopped, (counting req 5).1))
read_complete-Silent_example = read_complete-Silent (1 ∷ []) counting a_header none 5

decode_entries-endless_example :
    decode_entries (5 ∷ []) 1000 (entry_block 3 1 65523 (7 ∷ [])) ≡ err endless
decode_entries-endless_example =
    decode_entries-endless (5 ∷ []) (7 ∷ []) 3 1 65523 (omega arith) (omega arith) (omega arith)
      (omega arith) (omega arith) 1000
