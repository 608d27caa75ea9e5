-- ===== src/Rpc/Request.antt =====
-- asio_service.cxx: a request as the client sends it and as a session reads it.
use cornerstone.Common.{
  ℕ, zero, suc, ◌+◌, ◌-◌, ◌^◌, ◌%◌, List, [], ◌∷◌, length, Option, none, some, ◌&&◌, ltb,
  if◌then◌else◌, to_ulong,
}
use cornerstone.Buffer.{
  Buffer, Result, ok, err, endless, ◌>>=◌, alloc, set_pos, size, put_ulong, put_byte, put_int,
  put_buffer, get_ulong, get_byte, get_int, get_buffer,
}
use cornerstone.Codec.Entry.{LogEntry, val_type_byte, val_type_of}
use cornerstone.Codec.Config.{total_size, put_all}
use cornerstone.Raft.Types.{ReqMsg}
use cornerstone.Rpc.Types.{type_byte, msg_type_of}

-- `RPC_REQ_HEADER_SIZE`
abbrev pub req_header_size : ℕ
req_header_size = 45

unfoldable pub encode_entry : LogEntry → Result Buffer
encode_entry e = do
  b ← alloc (8 + 1 + 4 + length e.buf)
  b ← put_ulong b e.term
  b ← put_byte b (val_type_byte e.val_type)
  b ← put_int b (length e.buf % 2 ^ 32)
  b ← put_buffer b (record { bytes = e.buf; pos = 0 })
  ok (set_pos b 0)

-- The first loop of `send`: a buffer for each entry.
unfoldable pub encode_entries : List LogEntry → Result (List Buffer)
encode_entries [] = ok []
encode_entries (e ∷ es) = do b ← encode_entry e; bs ← encode_entries es; ok (b ∷ bs)

-- The bytes that are written to the socket. `log_data_size` is an int32.
unfoldable pub encode_req : ReqMsg → Result Buffer
encode_req req = do
  log_entry_bufs ← encode_entries req.log_entries
  let log_data_size = total_size log_entry_bufs % 2 ^ 32
  b ← alloc (to_ulong ((req_header_size + log_data_size) % 2 ^ 32))
  b ← put_byte b (type_byte req.type)
  b ← put_int b req.src
  b ← put_int b req.dst
  b ← put_ulong b req.term
  b ← put_ulong b req.last_log_term
  b ← put_ulong b req.last_log_idx
  b ← put_ulong b req.commit_idx
  b ← put_int b log_data_size
  b ← put_all b log_entry_bufs
  ok (set_pos b 0)

-- One round of the loop in `read_complete`. `behind` are the bytes that stand behind the block in memory.
unfoldable pub decode_entry : List ℕ → Buffer → Result (LogEntry × Buffer)
decode_entry behind b = do
  (term, b) ← get_ulong b
  (val_type, b) ← get_byte b
  (val_size, b) ← get_int b
  buf ← alloc (to_ulong val_size)
  let (buf, b) = get_buffer behind b buf
  ok (record { term = term; val_type = val_type_of val_type; buf = buf.bytes }, b)

-- The loop; `fuel` bounds its rounds. A round begins at a position in the block, and its end depends only
-- on where it begins, so that a loop of more rounds than there are bytes comes back to a position and
-- never ends.
unfoldable pub decode_entries : List ℕ → ℕ → Buffer → Result (List LogEntry)
decode_entries behind zero b = if ltb b.pos (size b) then err endless else ok []
decode_entries behind (suc fuel) b =
    if ltb b.pos (size b)
    then (do (e, b) ← decode_entry behind b; es ← decode_entries behind fuel b; ok (e ∷ es))
    else ok []

-- `header_->get_int() > 0 && log_data_`
unfoldable pub decode_data : List ℕ → ℕ → Option (List ℕ) → Result (List LogEntry)
decode_data behind n none = ok []
decode_data behind n (some bytes) =
    if ltb 0 n && ltb n (2 ^ 31)
    then decode_entries behind (length bytes) (record { bytes = bytes; pos = 0 })
    else ok []

-- The request that `read_complete` makes of the header and the log data.
unfoldable pub decode_req : List ℕ → List ℕ → Option (List ℕ) → Result ReqMsg
decode_req behind header log_data = do
  let b : Buffer = record { bytes = header; pos = 0 }
  (t, b) ← get_byte b
  (src, b) ← get_int b
  (dst, b) ← get_int b
  (term, b) ← get_ulong b
  (last_term, b) ← get_ulong b
  (last_idx, b) ← get_ulong b
  (commit_idx, b) ← get_ulong b
  (n, b) ← get_int b
  entries ← decode_data behind n log_data
  ok (record {
    term = term;
    type = msg_type_of t;
    src = src;
    dst = dst;
    last_log_term = last_term;
    last_log_idx = last_idx;
    commit_idx = commit_idx;
    log_entries = entries;
  })

-- The size of the log data that `start` finds in the header, or none where it stops the session.
unfoldable pub data_size : List ℕ → Result (Option ℕ)
data_size header = do
  (n, b) ← get_int (set_pos (record { bytes = header; pos = 0 }) (req_header_size - 4))
  ok (if ltb 0x1000000 n then none else some n)
