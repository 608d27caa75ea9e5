-- ===== src/Task/Runs.antt =====
-- delayed_task.hxx: how often a task runs.
use cornerstone.Common.{
  ℕ, zero, suc, ◌+◌, ◌≤◌, ◌≡◌, refl, ◌∙◌, List, [], ◌∷◌, length, length-append, All, true, false,
  arith,
}
use cornerstone.Task
use cornerstone.Task.{
  Task, Event, scheduled, timer_stopped, marked, expired, ran, step, run, cancel_task, schedule,
}

-- The events other than a call of `schedule`.
abbrev pub IsQuiet : Event → Type 0
IsQuiet (scheduled ms) = ⊥
IsQuiet _ = Unit

-- What cannot grow without a call of `schedule`: the calls, and the workers that will make one.
abbrev due : {T : Type 0} → Task T → ℕ
due t = length t.calls + t.entered

module _ {T : Type 0} where
  execute_entered-Due :
      (n : ℕ) (t : Task T) → t.entered ≡ n → due (Task.execute_entered n t) ≤ due t
  unfolding Task.execute_entered
  execute_entered-Due zero t h = omega arith
  execute_entered-Due (suc n) t h = ground (arith, length-append t.calls (t.ctx ∷ []))

  execute_entered-cancelled :
      (n : ℕ) (t : Task T) → (Task.execute_entered n t).cancelled ≡ t.cancelled
  unfolding Task.execute_entered
  execute_entered-cancelled zero t = refl
  execute_entered-cancelled (suc n) t = ground arith

  step-Due :
      (e : Event) (t : Task T)
      → IsQuiet e
      → t.cancelled ≡ true
      → ((step e t).cancelled ≡ true) × (due (step e t) ≤ due t)
  unfolding step Task.cancel Task.cancel_impl Task.timer_handler
  step-Due (scheduled ms) t q h = absurd q
  step-Due timer_stopped t q h = ground arith
  step-Due marked t q h = (refl, omega arith)
  step-Due (expired failed) t q h = ground arith
  step-Due ran t q h =
      (execute_entered-cancelled t.entered t ∙ h, execute_entered-Due t.entered t refl)

  -- Without a call of `schedule`, a task that is cancelled makes no more calls than are due.
  run-Due :
      (es : List Event) (t : Task T)
      → All IsQuiet es
      → t.cancelled ≡ true
      → length (run es t).calls ≤ due t
  unfolding run
  run-Due [] t q h = omega arith
  run-Due (e ∷ es) t q h =
      let s = step-Due e t q.0 h in omega (arith, s, run-Due es (step e t) q.1 s.0)

  -- From a cancellation to the next call of `schedule`, whatever the timer does, the executor is called
  -- at most by the workers that had read the flag before.
  pub cancel_task-Silent :
      (t : Task T) (es : List Event)
      → All IsQuiet es
      → length (run es (cancel_task t)).calls ≤ length t.calls + t.entered
  unfolding cancel_task
  cancel_task-Silent t es q = ground (arith, run-Due es (cancel_task t) q)

  -- A task that is cancelled before it is scheduled for the first time stays cancelled.
  pub schedule-Silent :
      (t : Task T) (ms : ℕ) (es : List Event)
      → t.has_impl_ctx ≡ false
      → t.cancelled ≡ true
      → All IsQuiet es
      → length (run es (schedule ms t)).calls ≤ length t.calls + t.entered
  unfolding schedule
  schedule-Silent t ms es h c q = ground (arith, run-Due es (schedule ms t) q)
