-- ===== src/Rpc/Client/Answers.antt =====
-- asio_service.cxx: how the requests of the client end.
use cornerstone.Common.{
  ℕ, ◌+◌, ◌≤◌, ◌≡◌, refl, List, [], ◌∷◌, Bool, true, false, length, arith, ltb, Bool-cases, inl,
  inr, le→ltb_false, take,
}
use cornerstone.Buffer.{
  Buffer, Result, ok, err, size, avail, move_forward, get_word, get_byte, get_int, get_ulong,
  shift_in, data_of,
}
use cornerstone.Buffer.Bounds.{IsWithin, avail-within, moved, moved_size}
use cornerstone.Raft.Types.{ReqMsg, RespMsg}
use cornerstone.Rpc.Request.{encode_req}
use cornerstone.Rpc.Response.{decode_resp, resp_header_size}
use cornerstone.Rpc.Client.{
  Await, resolving, connecting, writing, reading, answered, failed, lost, dangling, Completion,
  send, write_req, complete, run, respond, resolved, connected, sent, response_read,
}

-- A read of `n` bytes that are there.
record There (b : Buffer) (n : ℕ) (r : Result (ℕ × Buffer)) : Type 0 where
  value : ℕ
  after : Buffer
  ends : r ≡ ok (value, after)
  within : IsWithin after
  block : size after ≡ size b
  pos : after.pos ≡ b.pos + n

get_word-There :
    (width n : ℕ) (b : Buffer) → IsWithin b → b.pos + n ≤ size b → There b n (get_word width n b)
unfolding get_word
get_word-There width n b h k = record {
  value = shift_in width (take n (data_of b)) 0 0;
  after = move_forward b n;
  ends = rw (le→ltb_false (avail b) n (omega (arith, avail-within b h, k))) refl;
  within = record {
    block = omega (arith, h.block, moved_size b n);
    pos =
        omega
          (arith, h.block, h.pos, k, moved_size b n, moved b n h.block (omega (arith, h.pos, k)));
  };
  block = moved_size b n;
  pos = moved b n h.block (omega (arith, h.pos, k));
}

abbrev Succeeds : {A : Type 0} → Result A → Type 0
Succeeds (ok a) = Unit
Succeeds (err e) = ⊥

-- A block of the size of a response is read as one.
decode_resp-Total :
    (b : Buffer) → IsWithin b → b.pos + resp_header_size ≤ size b → Succeeds (decode_resp b)
unfolding decode_resp get_byte get_int get_ulong
decode_resp-Total b h k =
    let t = get_word-There 8 1 b h (omega (arith, k)) in
    let src = get_word-There 32 4 t.after t.within (omega (arith, k, t.block, t.pos)) in
    let dst =
      get_word-There 32 4 src.after src.within
        (omega (arith, k, t.block, t.pos, src.block, src.pos)) in
    let term =
      get_word-There 64 8 dst.after dst.within
        (omega (arith, k, t.block, t.pos, src.block, src.pos, dst.block, dst.pos)) in
    let idx = get_word-There 64 8 term.after term.within (
      omega
        (arith, k, t.block, t.pos, src.block, src.pos, dst.block, dst.pos, term.block, term.pos)) in
    let acc = get_word-There 8 1 idx.after idx.within (
      omega (
        arith, k, t.block, t.pos, src.block, src.pos, dst.block, dst.pos, term.block, term.pos,
        idx.block, idx.pos,
      )) in
    rw (t.ends, src.ends, dst.ends, term.ends, idx.ends, acc.ends) tt

-- What asio documents: a socket that is connected is open, where no other request has closed it since,
-- and a read that ends well has filled its block. And the caller of `send` keeps its variables until the
-- name is resolved, which the code leaves to it.
abbrev pub IsSound : Await → Completion → Type 0
IsSound (resolving req) c = c.caller_waits ≡ true
IsSound (connecting req) c = c.has_failed ≡ false → c.is_open ≡ true
IsSound (reading req) c = c.has_failed ≡ false → length c.bytes ≡ resp_header_size
IsSound _ c = Unit

abbrev pub AreSound : Await → List Completion → Type 0
AreSound a [] = Unit
AreSound a (c ∷ cs) = IsSound a c × AreSound (complete a c) cs

-- The handler was called.
abbrev pub IsAnswered : Await → Type 0
IsAnswered (answered r) = Unit
IsAnswered (failed why req closed) = Unit
IsAnswered _ = ⊥

abbrev steps_left : Await → ℕ
steps_left (resolving req) = 4
steps_left (connecting req) = 3
steps_left (writing req bytes) = 2
steps_left (reading req) = 1
steps_left _ = 0

-- The request can be written where that is still to come, and no exception has lost it.
abbrev CanEnd : Await → Type 0
CanEnd (resolving req) = (b : Buffer) × (encode_req req ≡ ok b)
CanEnd (connecting req) = (b : Buffer) × (encode_req req ≡ ok b)
CanEnd (lost e) = ⊥
CanEnd dangling = ⊥
CanEnd _ = Unit

ended : (a : Await) → CanEnd a → steps_left a ≤ 0 → IsAnswered a
ended (resolving req) h k = absurd (omega (arith, k))
ended (connecting req) h k = absurd (omega (arith, k))
ended (writing req bytes) h k = absurd (omega (arith, k))
ended (reading req) h k = absurd (omega (arith, k))
ended (lost e) h k = h
ended dangling h k = h
ended _ h k = tt

-- One step further, or at the end.
abbrev Goes : ℕ → Await → Type 0
Goes n a = CanEnd a × (steps_left a + 1 ≤ n)

respond-Goes : (r : Result RespMsg) → Succeeds r → Goes 1 (respond r)
unfolding respond
respond-Goes (ok r) h = (tt, omega arith)
respond-Goes (err e) h = absurd h

read-Succeeds :
    (bytes : List ℕ)
    → length bytes ≡ resp_header_size
    → Succeeds (decode_resp (record { bytes = bytes; pos = 0 }))
unfolding size
read-Succeeds bytes h =
    decode_resp-Total (record { bytes = bytes; pos = 0 })
      record { block = omega (arith, h); pos = omega arith } (omega (arith, h))

complete-Goes :
    (a : Await) (c : Completion)
    → CanEnd a
    → IsSound a c
    → 0 + 1 ≤ steps_left a
    → Goes (steps_left a) (complete a c)
unfolding complete resolved connected sent response_read send write_req
complete-Goes (resolving req) c h s k = elim (Bool-cases c.has_failed) [
  | inl y ↦ rw (s, y) (tt, omega arith)
  | inr n ↦ rw (s, n) (h, omega arith)
]
complete-Goes (connecting req) c h s k = elim (Bool-cases c.has_failed) [
  | inl y ↦ rw y (tt, omega arith)
  | inr n ↦ rw (n, s n, h.1) (tt, omega arith)
]
complete-Goes (writing req bytes) c h s k = elim (Bool-cases c.has_failed) [
  | inl y ↦ rw y (tt, omega arith)
  | inr n ↦ rw n (tt, omega arith)
]
complete-Goes (reading req) c h s k = elim (Bool-cases c.has_failed) [
  | inl y ↦ rw y (tt, omega arith)
  | inr n ↦ rw n (
      respond-Goes (decode_resp (record { bytes = c.bytes; pos = 0 }))
        (read-Succeeds c.bytes (s n)))
]
complete-Goes _ c h s k = absurd (omega (arith, k))

run_ended : (a : Await) (cs : List Completion) → steps_left a ≤ 0 → run cs a ≡ a
unfolding run complete
run_ended a [] h = refl
run_ended (resolving req) (c ∷ cs) h = absurd (omega (arith, h))
run_ended (connecting req) (c ∷ cs) h = absurd (omega (arith, h))
run_ended (writing req bytes) (c ∷ cs) h = absurd (omega (arith, h))
run_ended (reading req) (c ∷ cs) h = absurd (omega (arith, h))
run_ended (answered r) (c ∷ cs) h = run_ended (answered r) cs h
run_ended (failed why req closed) (c ∷ cs) h = run_ended (failed why req closed) cs h
run_ended (lost e) (c ∷ cs) h = run_ended (lost e) cs h
run_ended dangling (c ∷ cs) h = run_ended dangling cs h

run-IsAnswered :
    (cs : List Completion) (a : Await)
    → CanEnd a
    → AreSound a cs
    → steps_left a ≤ length cs
    → IsAnswered (run cs a)
unfolding run
run-IsAnswered [] a h s k = ended a h k
run-IsAnswered (c ∷ cs) a h s k = elim (Bool-cases (ltb 0 (steps_left a))) [
  | inl y ↦
      let g = complete-Goes a c h s.0 (ground (arith, y)) in
      run-IsAnswered cs (complete a c) g.0 s.1 (omega (arith, g.1, k))
  | inr n ↦ rw (run_ended a (c ∷ cs) (ground (arith, n))) (ended a h (ground (arith, n)))
]

send-Goes :
    (is_open : Bool) (req : ReqMsg) (b : Buffer) → encode_req req ≡ ok b → Goes 5 (send is_open req)
unfolding send write_req
send-Goes true req b e = rw e (tt, omega arith)
send-Goes false req b e = ((b, e), omega arith)

-- The handler of a request that can be written is called, after four completions at the latest, with the
-- socket open or closed at first and whether or not asio fails: where a socket that is connected is open,
-- a read that does not fail has filled its block, and, for a socket that is closed at first, the caller
-- keeps its request and its handler until the name is resolved.
pub send-IsAnswered :
    (is_open : Bool) (req : ReqMsg) (b : Buffer) (cs : List Completion)
    → encode_req req ≡ ok b
    → AreSound (send is_open req) cs
    → 4 ≤ length cs
    → IsAnswered (run cs (send is_open req))
send-IsAnswered is_open req b cs e s n =
    let g = send-Goes is_open req b e in
    run-IsAnswered cs (send is_open req) g.0 s (omega (arith, g.1, n))
