-- ===== src/Rpc/Session.antt =====
-- asio_service.cxx: what a session does with a request that it has read.
-- The message handler is a parameter with a state of its own. Reading and writing the socket is asio's;
-- what a session asks it to do next is a value of `Step`.
use cornerstone.Common.{
  ℕ, ◌≡◌, refl, List, [], ◌∷◌, Bool, true, false, ◌==◌, Option, none, some, is_some, if◌then◌else◌,
  ◌≢◌,
}
use cornerstone.Buffer.{Result, Error, ok, err, endless}
use cornerstone.Raft.Types.{ReqMsg, RespMsg}
use cornerstone.Rpc.Request.{decode_req, data_size}
use cornerstone.Rpc.Response.{encode_resp}

-- `stopped` closes the socket, `responding` writes the bytes and starts over, `undefined` uses a null
-- response, and `looping` does not come back from the loop over the entries.
pub data Step : Type 0 where
  stopped undefined looping : Step
  responding : List ℕ → Step

-- The else branch, with the exceptions of the code caught by the caller.
unfoldable pub write_resp : Option RespMsg → Step
write_resp none = undefined
write_resp (some resp) = elim (encode_resp resp) [ ok b ↦ responding b.bytes | err e ↦ stopped ]

unfoldable pub answer : Option RespMsg → Step
answer resp = if is_some resp then stopped else write_resp resp

-- An exception stops the session; a loop that does not end never comes to it.
unfoldable pub failed_step : Error → Step
failed_step endless = looping
failed_step _ = stopped

stopped-Silent : (bytes : List ℕ) → stopped ≢ responding bytes
stopped-Silent bytes e = cc

failed_step-Silent : (e : Error) (bytes : List ℕ) → failed_step e ≢ responding bytes
unfolding failed_step
failed_step-Silent endless bytes h = cc
failed_step-Silent _ bytes h = cc

answer-Silent : (resp : Option RespMsg) (bytes : List ℕ) → answer resp ≢ responding bytes
unfolding answer write_resp
answer-Silent none bytes e = cc
answer-Silent (some resp) bytes e = stopped-Silent bytes e

module _ {S : Type 0} (behind : List ℕ) (process : ReqMsg → S → Option RespMsg × S) where
  -- The handler runs on a request that was read.
  unfoldable pub handle : Result ReqMsg → S → Step × S
  unfolding answer failed_step
  handle (err e) s = (failed_step e, s)
  handle (ok req) s = let (resp, s') = process req s in (answer resp, s')

  -- The header and the log data that were read.
  unfoldable pub read_complete : List ℕ → Option (List ℕ) → S → Step × S
  unfolding handle
  read_complete header log_data s = handle (decode_req behind header log_data) s

  -- The callback of the read of a header: the steps that it takes, the size of the read that it asks
  -- for, and the handler's state. An exception leaves the callback, and nothing more is asked for.
  unfoldable pub header_read : Bool → List ℕ → Option (List ℕ) → S → List Step × (Option ℕ × S)
  unfolding read_complete
  header_read true header log_data s = (stopped ∷ [], (none, s))
  header_read false header log_data s = elim (data_size header) [
    | err e ↦ ([], (none, s))
    | ok none ↦ (stopped ∷ [], (none, s))
    | ok (some n) ↦
        let (step, s') = read_complete header log_data s in
        if n == 0 then (step ∷ [], (some n, s')) else ([], (some n, s))
  ]

  -- `read_log_data`, with the bytes that were read.
  unfoldable pub read_log_data : Bool → List ℕ → List ℕ → S → Step × S
  unfolding read_complete
  read_log_data true header bytes s = (stopped, s)
  read_log_data false header bytes s = read_complete header (some bytes) s

  handle-Silent : (r : Result ReqMsg) (s : S) (bytes : List ℕ) → (handle r s).0 ≢ responding bytes
  unfolding handle
  handle-Silent (err e) s bytes = failed_step-Silent e bytes
  handle-Silent (ok req) s bytes = answer-Silent (process req s).0 bytes

  -- Whatever is read and whatever the handler does, a session writes no response: the test of the
  -- handler's answer is the wrong way round. Where the request is read and the handler answers, the
  -- session stops, with what the handler did to its state kept.
  pub read_complete-Silent :
      (header : List ℕ) (log_data : Option (List ℕ)) (s : S)
      → ((bytes : List ℕ) → (read_complete header log_data s).0 ≢ responding bytes)
        × ((req : ReqMsg) (resp : RespMsg)
            → decode_req behind header log_data ≡ ok req
            → (process req s).0 ≡ some resp
            → read_complete header log_data s ≡ (stopped, (process req s).1))
  unfolding read_complete handle
  read_complete-Silent header log_data s =
      (handle-Silent (decode_req behind header log_data) s, λ req resp h k. rw (h, k) refl)
