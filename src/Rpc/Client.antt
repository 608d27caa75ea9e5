-- ===== src/Rpc/Client.antt =====
-- asio_service.cxx: a request of the client, from `send` to the call of its handler. What asio is asked to
-- do next is a value of `Await`, and how that ends a `Completion`. The socket is shared by the requests of
-- a client, so that each completion tells whether it is open.
pub mod Answers
use cornerstone.Common.{ℕ, List, [], ◌∷◌, Bool, true, false, not, if◌then◌else◌}
use cornerstone.Buffer.{Buffer, Result, ok, err, Error}
use cornerstone.Raft.Types.{ReqMsg, RespMsg}
use cornerstone.Rpc.Request.{encode_req}
use cornerstone.Rpc.Response.{decode_resp}

-- The messages of the exceptions that the handler is given.
pub data Failure : Type 0 where
  not_resolved not_connected not_sent not_read : Failure

-- `answered` and `failed` are calls of the handler; the flag of `failed` tells whether the socket was
-- closed before. An exception that leaves a callback loses the request: the handler is not called.
-- `dangling` is the use of a request and a handler that are gone.
pub data Await : Type 0 where
  resolving connecting reading : ReqMsg → Await
  writing : ReqMsg → List ℕ → Await
  answered : RespMsg → Await
  failed : Failure → ReqMsg → Bool → Await
  lost : Error → Await
  dangling : Await

-- Asio's error, whether the socket is open when the callback runs, the bytes that were read, and whether
-- the variables of the caller of `send` that hold the request and the handler are still there.
pub record Completion : Type 0 where
  pub has_failed : Bool
  pub is_open : Bool
  pub bytes : List ℕ
  pub caller_waits : Bool

unfoldable pub write_req : ReqMsg → Result Buffer → Await
write_req req (err e) = lost e
write_req req (ok b) = writing req b.bytes

unfoldable pub send : Bool → ReqMsg → Await
unfolding write_req
send is_open req = if is_open then write_req req (encode_req req) else resolving req

-- The callback of `async_resolve`, which has references to the caller's variables. The other callbacks
-- have copies.
unfoldable pub resolved : ReqMsg → Completion → Await
resolved req c =
    if not c.caller_waits
    then dangling
    else if c.has_failed
    then failed not_resolved req false
    else connecting req

unfoldable pub connected : ReqMsg → Completion → Await
unfolding send
connected req c = if c.has_failed then failed not_connected req false else send c.is_open req

unfoldable pub sent : ReqMsg → Completion → Await
sent req c = if c.has_failed then failed not_sent req true else reading req

unfoldable pub respond : Result RespMsg → Await
respond (ok r) = answered r
respond (err e) = lost e

unfoldable pub response_read : ReqMsg → Completion → Await
unfolding respond
response_read req c =
    if c.has_failed
    then failed not_read req true
    else respond (decode_resp (record { bytes = c.bytes; pos = 0 }))

-- The callback that a completion runs; behind the call of the handler there is none.
unfoldable pub complete : Await → Completion → Await
unfolding resolved connected sent response_read
complete (resolving req) c = resolved req c
complete (connecting req) c = connected req c
complete (writing req bytes) c = sent req c
complete (reading req) c = response_read req c
complete a c = a

unfoldable pub run : List Completion → Await → Await
run [] a = a
run (c ∷ cs) a = run cs (complete a c)
