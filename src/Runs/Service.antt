-- ===== src/Runs/Service.antt =====
-- The theorems on blocks, loggers and the rpc client at concrete values.
use cornerstone.Common.{ℕ, ◌≡◌, ◌+◌, refl, arith, leb, [], ◌∷◌, true, false, if◌then◌else◌}
use cornerstone.Buffer
use cornerstone.Buffer.{Buffer, ok, size, alloc, set_pos, move_forward}
use cornerstone.Buffer.Header.{
  header, init_block, size_of_block, pos_of_block, data_of_block, set_header_pos, mv_fw_block,
  header_lem,
}
use cornerstone.Logger
use cornerstone.Logger.{Line, Level, Logger, info, err, debug, flush}
use cornerstone.Logger.Lines.{logged, taken, wrote, lines, run as run_logger, wanted, flush-run}
use cornerstone.Raft.Types.{ReqMsg, append_entries_request}
use cornerstone.Rpc.Request.{encode_req, encode_entries}
use cornerstone.Codec.Config.{total_size, put_all}
use cornerstone.Rpc.Client.{Completion, send, run, complete}
use cornerstone.Rpc.Client.Answers.{IsAnswered, send-IsAnswered}

abbrev block : Buffer
block = record { bytes = 1 ∷ 2 ∷ 3 ∷ []; pos = 1 }

header_lem_example :
    ((n : ℕ) → alloc n ≡ ok block → init_block n ≡ header block)
    × (size_of_block (header block) ≡ size block)
    × (pos_of_block (header block) ≡ 1)
    × (data_of_block (header block) ≡ (if leb 0x8000 (size block) then 8 else 4) + 1)
    × (set_header_pos 2 (header block) ≡ header (set_pos block 2))
    × (mv_fw_block 2 (header block) ≡ header (move_forward block 2))
unfolding size
header_lem_example = header_lem block 2 2 (omega arith) (omega arith)

-- A logger of level 1, with a line that waits.
abbrev a_logger : Logger
a_logger = record { level = 1; fs = []; backup = []; buffer = (5 ∷ []) ∷ [] }

flush-run_example :
    (lines
        (run_logger (λ now level. now ∷ []) (taken ∷ logged err 3 (9 ∷ []) ∷ wrote ∷ []) a_logger)
      ≡ (5 ∷ []) ∷ (3 ∷ 9 ∷ []) ∷ [])
    × ((flush (
          run_logger
            (λ now level. now ∷ [])
            (taken ∷ logged err 3 (9 ∷ []) ∷ wrote ∷ [])
            a_logger)).fs
        ≡ (5 ∷ []) ∷ (3 ∷ 9 ∷ []) ∷ [])
unfolding wanted cornerstone.Logger.level_number
flush-run_example =
    flush-run (λ now level. now ∷ []) (taken ∷ logged err 3 (9 ∷ []) ∷ wrote ∷ []) a_logger

abbrev a_req : ReqMsg
a_req = record {
  term = 3;
  type = append_entries_request;
  src = 1;
  dst = 2;
  last_log_term = 2;
  last_log_idx = 41;
  commit_idx = 40;
  log_entries = [];
}

-- A completion without bytes.
abbrev ended : Completion
ended = record { has_failed = false; is_open = false; bytes = []; caller_waits = true }

abbrev broken : Completion
broken = record { has_failed = true; is_open = false; bytes = []; caller_waits = true }

send-IsAnswered_example : IsAnswered (run (ended ∷ broken ∷ ended ∷ ended ∷ []) (send false a_req))
unfolding complete send encode_req encode_entries alloc total_size Buffer.put_byte Buffer.put_bytes
    Buffer.avail Buffer.put_int move_forward Buffer.overwrite Buffer.int_bytes Buffer.put_ulong
    Buffer.ulong_bytes put_all
send-IsAnswered_example =
    send-IsAnswered false a_req _ (ended ∷ broken ∷ ended ∷ ended ∷ []) refl
      (refl, ((λ e. cc), (tt, (tt, tt)))) (omega arith)

-- The name is resolved when the caller has returned.
abbrev late : Completion
late = record { has_failed = false; is_open = true; bytes = []; caller_waits = false }
