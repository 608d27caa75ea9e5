-- ===== src/Task.antt =====
-- delayed_task.hxx, timer_task.hxx, delayed_task_scheduler.hxx, and the timers of asio_service.cxx.
-- A task has a timer of asio, which is a parameter: what the code asks of it is a list of calls, and
-- when its waits end, and how, is up to the events. A worker reads the flag of a task before it runs
-- it, so that other threads come in between.
pub mod Runs
use cornerstone.Common.{
  ℕ, zero, suc, List, [], ◌∷◌, ◌++◌, Bool, true, false, not, ◌&&◌, if◌then◌else◌,
}

-- What is asked of the timer, with its period in milliseconds.
pub data TimerCall : Type 0 where
  timer_created timer_deleted timer_waits timer_cancelled : TimerCall
  timer_expires_after : ℕ → TimerCall

-- A task with the argument of its executor, of type `T`, which is `Unit` for a `timer_task<void>`. The
-- executor is a function outside: `calls` are its arguments, oldest first, and `has_exec` tells whether
-- there is one. `entered` counts the workers that have read the flag and go on to run the task.
pub record Task (T : Type 0) : Type 0 where
  pub has_exec : Bool
  pub ctx : T
  pub cancelled : Bool
  pub has_impl_ctx : Bool
  pub has_impl_ctx_del : Bool
  pub entered : ℕ
  pub calls : List T
  pub timer : List TimerCall

module _ {T : Type 0} where
  -- The constructors of timer_task and delayed_task.
  unfoldable pub new : Bool → T → Task T
  new has_exec ctx = record {
    has_exec = has_exec;
    ctx = ctx;
    cancelled = false;
    has_impl_ctx = false;
    has_impl_ctx_del = false;
    entered = 0;
    calls = [];
    timer = [];
  }

  -- `timer_task::exec`
  unfoldable pub exec : Task T → Task T
  exec t = if t.has_exec then record t { calls = t.calls ++ (t.ctx ∷ []) } else t

  -- The test of `execute`.
  unfoldable pub enter : Task T → Task T
  enter t = if not t.cancelled then record t { entered = suc t.entered } else t

  -- One of the workers behind the test runs the task.
  unfoldable pub execute_entered : ℕ → Task T → Task T
  unfolding exec
  execute_entered zero t = t
  execute_entered (suc n) t = exec (record t { entered = n })

  unfoldable pub cancel : Task T → Task T
  cancel t = record t { cancelled = true }

  unfoldable pub reset : Task T → Task T
  reset t = record t { cancelled = false }

  unfoldable pub set_impl_context : Bool → Task T → Task T
  set_impl_context has_del t = record t { has_impl_ctx = true; has_impl_ctx_del = has_del }

  unfoldable pub ask : TimerCall → Task T → Task T
  ask c t = record t { timer = t.timer ++ (c ∷ []) }

  -- The destructor; `_free_timer_` deletes the timer.
  unfoldable pub destroy : Task T → Task T
  unfolding ask
  destroy t = if t.has_impl_ctx && t.has_impl_ctx_del then ask timer_deleted t else t

  -- `asio_service::schedule`
  unfoldable pub schedule : ℕ → Task T → Task T
  unfolding ask set_impl_context reset
  schedule ms t =
      let ready =
        (if t.has_impl_ctx then reset t else set_impl_context true (ask timer_created t)) in
      ask timer_waits (ask (timer_expires_after ms) ready)

  -- `asio_service::cancel_impl`
  unfoldable pub cancel_impl : Task T → Task T
  unfolding ask
  cancel_impl t = if t.has_impl_ctx then ask timer_cancelled t else t

  -- `delayed_task_scheduler::cancel`
  unfoldable pub cancel_task : Task T → Task T
  unfolding cancel_impl cancel
  cancel_task t = cancel (cancel_impl t)

  -- `_timer_handler_`, up to the call of `exec`; `failed` is asio's error.
  unfoldable pub timer_handler : Bool → Task T → Task T
  unfolding enter
  timer_handler failed t = if not failed then enter t else t

-- What happens to a task: the calls of the scheduler, with the two of `cancel` on their own, since
-- workers run between them; a wait of the timer that ends, well or with an error; and a worker that
-- goes on behind the test.
pub data Event : Type 0 where
  scheduled : ℕ → Event
  timer_stopped marked : Event
  expired : Bool → Event
  ran : Event

module _ {T : Type 0} where
  unfoldable pub step : Event → Task T → Task T
  unfolding schedule cancel_impl cancel timer_handler execute_entered
  step (scheduled ms) t = schedule ms t
  step timer_stopped t = cancel_impl t
  step marked t = cancel t
  step (expired failed) t = timer_handler failed t
  step ran t = execute_entered t.entered t

  unfoldable pub run : List Event → Task T → Task T
  run [] t = t
  run (e ∷ es) t = run es (step e t)
