-- ===== src/Logger.antt =====
-- asio_service.cxx: the loggers, and the part of the service that flushes them.
-- The text in front of a line, with the time, the thread and the level, is a parameter, and so are the
-- threads: a flush takes the lines under the lock and writes them without it, and other calls come in
-- between. One flush of a logger runs at a time.
pub mod Lines
use cornerstone.Common.{
  ℕ, ◌*◌, List, [], ◌∷◌, ◌++◌, Bool, true, false, not, ◌&&◌, ◌==◌, if◌then◌else◌, leb,
}

abbrev pub Line : Type 0
Line = List ℕ

-- The levels, as the methods name them.
pub data Level : Type 0 where
  debug info warn err : Level

-- What a logger of a level compares it to.
unfoldable pub level_number : Level → ℕ
level_number debug = 0
level_number info = 1
level_number warn = 2
level_number err = 3

-- `level` is that of the constructor. `fs` is the file, and `backup` the lines that a flush has taken and
-- not yet written.
pub record Logger : Type 0 where
  pub level : ℕ
  pub fs : List Line
  pub backup : List Line
  pub buffer : List Line

unfoldable pub new : ℕ → Logger
new level = record { level = level; fs = []; backup = []; buffer = [] }

-- The part of `flush` under the lock.
unfoldable pub take_lines : Logger → Logger
take_lines l = record l { backup = l.backup ++ l.buffer; buffer = [] }

-- One round of the loop in `flush`.
unfoldable pub write_line : List Line → Logger → Logger
write_line [] l = l
write_line (x ∷ xs) l = record l { fs = l.fs ++ (x ∷ []); backup = xs }

-- The loop over the lines that are taken.
unfoldable pub write_lines : List Line → Logger → Logger
unfolding write_line
write_lines [] l = l
write_lines (x ∷ xs) l = write_lines xs (write_line (x ∷ xs) l)

unfoldable pub flush : Logger → Logger
unfolding take_lines write_lines
flush l = let t = take_lines l in write_lines t.backup t

module _ (prefix : ℕ → Level → Line) where
  -- `now` stands for the time and the thread.
  unfoldable pub write_log : ℕ → Level → Line → Logger → Logger
  write_log now level line l = record l { buffer = l.buffer ++ ((prefix now level ++ line) ∷ []) }

  -- The four methods `debug`, `info`, `warn` and `err`.
  unfoldable pub log : Level → ℕ → Line → Logger → Logger
  unfolding write_log level_number
  log level now line l = if leb l.level (level_number level) then write_log now level line l else l

-- The service: its loggers by their addresses, whether it goes on, and the periods in milliseconds for
-- which the flush timer was set, the latest first. The timer is asio's.
pub record Service : Type 0 where
  pub continues : Bool
  pub stopping : Bool
  pub notified : Bool
  pub timer_cancelled : Bool
  pub loggers : List (ℕ × Logger)
  pub periods : List ℕ

-- The constructor.
unfoldable pub service : Service
service = record {
  continues = true;
  stopping = false;
  notified = false;
  timer_cancelled = false;
  loggers = [];
  periods = 1000 ∷ [];
}

unfoldable pub create_logger : ℕ → ℕ → Service → Service
unfolding new
create_logger address level s = record s { loggers = s.loggers ++ ((address, new level) ∷ []) }

-- The first element with the address goes.
unfoldable pub remove_first : ℕ → List (ℕ × Logger) → List (ℕ × Logger)
remove_first address [] = []
remove_first address ((a, l) ∷ ls) =
    let rest = remove_first address ls in if a == address then ls else (a, l) ∷ rest

unfoldable pub remove_logger : ℕ → Service → Service
unfolding remove_first
remove_logger address s = record s { loggers = remove_first address s.loggers }

-- The destructor of a logger: what it has left is written, and the file is returned.
unfoldable pub destroy : ℕ → Logger → Service → List Line × Service
unfolding flush remove_logger
destroy address l s = ((flush l).fs, remove_logger address s)

unfoldable pub flush_each : List (ℕ × Logger) → List (ℕ × Logger)
unfolding flush
flush_each [] = []
flush_each ((a, l) ∷ ls) = (a, flush l) ∷ flush_each ls

-- Milliseconds in 1000 hours.
abbrev hours_1000 : ℕ
hours_1000 = 1000 * 3600000

-- The handler of the flush timer; `failed` is asio's error.
unfoldable pub flush_all_loggers : Bool → Service → Service
unfolding flush_each
flush_all_loggers failed s =
    let armed =
      (if not failed && s.continues then record s { periods = hours_1000 ∷ s.periods } else s) in
    let flushed = record armed { loggers = flush_each s.loggers } in
    if s.stopping then record flushed { notified = true } else flushed

-- `stop` up to its wait for a notification.
unfoldable pub stop : Service → Service
stop s =
    if s.continues
    then record s { continues = false; stopping = true; timer_cancelled = true }
    else s
