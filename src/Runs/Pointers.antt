-- ===== src/Runs/Pointers.antt =====
-- The theorems on pointers and on results that come later, at concrete values.
use cornerstone.Common.{ℕ, ◌≡◌, ◌+◌, ◌<◌, refl, [], ◌∷◌, none, some, Bool, true, ◌==◌, arith}
use cornerstone.Async.{
  pending, set_result, when_all_ready, last_handler, one_or_none, get, returned, waits,
  set_result-when_ready,
}
use cornerstone.Ptr
use cornerstone.Ptr.{Memory, at}
use cornerstone.Ptr.Counts.{count}
use cornerstone.Ptr.Runs.{
  nothing, Run, Step, Run-Freed, assign-Dangling, Run-IsCounted, nothing-IsCounted,
}

set_result-when_ready_example :
    ((when_all_ready {H = ℕ}
        (4 ∷ 5 ∷ [])
        (set_result true none (when_all_ready (1 ∷ 2 ∷ []) (pending {E = ℕ})))).calls
      ≡ (2, (some true, none)) ∷ (4, (some true, none)) ∷ (5, (some true, none)) ∷ [])
    × ((get (when_all_ready {T = Bool} {E = ℕ} {H = ℕ} (1 ∷ 2 ∷ []) pending) ≡ waits)
        × (get (
              when_all_ready {H = ℕ}
                (4 ∷ 5 ∷ [])
                (set_result true none (when_all_ready (1 ∷ 2 ∷ []) (pending {E = ℕ}))))
            ≡ returned (some true)))
unfolding last_handler one_or_none
set_result-when_ready_example = set_result-when_ready (1 ∷ 2 ∷ []) (4 ∷ 5 ∷ []) true none

-- A block with one owner.
abbrev one : Memory
one = Ptr.cs_new 3 nothing

one-Run : Run nothing one
unfolding nothing
one-Run =
    Run.then_step nothing nothing one (Run.done nothing)
      record { owners = omega arith; refs = omega arith } (Step.news 3 nothing refl)

-- Then a reference, and the owner goes.
abbrev shared : Memory
shared = Ptr.refer 0 one

abbrev orphan : Memory
orphan = Ptr.reset 0 shared

orphan-Run : Run nothing orphan
unfolding nothing Ptr.cs_new Ptr.refer
orphan-Run =
    Run.then_step nothing shared orphan
      (Run.then_step nothing one shared one-Run record { owners = omega arith; refs = omega arith }
        (Step.refers 0 one))
      record { owners = omega arith; refs = omega arith } (Step.resets 0 shared (omega arith))

Run-Freed_example :
    ((orphan.blocks 3).is_freed ≡ (count 3 orphan.owners + count 3 orphan.refs == 0))
    × (0 < count 3 orphan.owners → (orphan.blocks 3).is_alive ≡ true)
Run-Freed_example = Run-Freed orphan 3 orphan-Run

assign-Dangling_example :
    (((Ptr.assign 0 0 one).blocks 3).is_freed ≡ true) × (at (Ptr.assign 0 0 one).owners 0 ≡ some 3)
unfolding nothing Ptr.cs_new at
assign-Dangling_example =
    assign-Dangling one 0 3 (Run-IsCounted nothing one one-Run nothing-IsCounted) refl refl refl
