-- ===== src/Ptr.antt =====
-- ptr.hxx: blocks with two counters, of the owners and of the references that do not own.
-- A block is named by a number; `owners` are the variables of type `ptr<T>` and `refs` those of type
-- `ptr<T&>`, each with the block that it points to or none for the null pointer. The counters are int32.
-- The destructor of the object itself is not modelled.
use cornerstone.Common.{
  ℕ, zero, suc, ◌+◌, ◌-◌, ◌<◌, ◌≤◌, ◌≡◌, ◌%◌, ◌^◌, List, [], ◌∷◌, ◌++◌, Option, none, some, Bool,
  true, false, ltb, ◌==◌, ◌&&◌, not, if◌then◌else◌, length,
}
pub mod Counts
pub mod Owners
pub mod References
pub mod Runs

pub record Block : Type 0 where
  pub strong : ℕ
  pub weak : ℕ
  pub is_alive : Bool
  pub is_freed : Bool

pub record Memory : Type 0 where
  pub blocks : ℕ → Block
  pub owners : List (Option ℕ)
  pub refs : List (Option ℕ)

abbrev pub up : ℕ → ℕ
up n = (n + 1) % 2 ^ 32

abbrev pub down : ℕ → ℕ
down n = (n + 2 ^ 32 - 1) % 2 ^ 32

unfoldable pub change : ℕ → (Block → Block) → (ℕ → Block) → ℕ → Block
change b f blocks x = if x == b then f (blocks x) else blocks x

-- `_inc_ref` of an owner and of a reference
unfoldable pub inc_strong : Block → Block
inc_strong k = record k { strong = up k.strong }

unfoldable pub inc_weak : Block → Block
inc_weak k = record k { weak = up k.weak }

-- The memory goes when the counter of the references is zero too.
unfoldable pub destroy : Block → Block
destroy k =
    let d = record k { is_alive = false; weak = down (up k.weak) } in
    if d.weak == 0 then record d { is_freed = true } else d

-- `_dec_ref_and_free` of an owner and of a reference
unfoldable pub dec_strong : Block → Block
unfolding destroy
dec_strong k = let d = record k { strong = down k.strong } in if d.strong == 0 then destroy d else d

unfoldable pub dec_weak : Block → Block
dec_weak k =
    let d = record k { weak = down k.weak } in
    if d.weak == 0 && d.strong == 0 then record d { is_freed = true } else d

-- On the block that a variable points to, if any.
unfoldable pub on_block : Option ℕ → (Block → Block) → (ℕ → Block) → ℕ → Block
unfolding change
on_block none f blocks = blocks
on_block (some b) f blocks = change b f blocks

unfoldable pub at : List (Option ℕ) → ℕ → Option ℕ
at [] i = none
at (p ∷ ps) zero = p
at (p ∷ ps) (suc i) = at ps i

unfoldable pub put : List (Option ℕ) → ℕ → Option ℕ → List (Option ℕ)
put [] i q = []
put (p ∷ ps) zero q = q ∷ ps
put (p ∷ ps) (suc i) q = p ∷ put ps i q

-- `cs_new`: a block that is not in use gets its first owner.
unfoldable pub cs_new : ℕ → Memory → Memory
unfolding on_block inc_strong
cs_new b m = record m {
  blocks =
      on_block (some b) inc_strong (
        change b (λ _. record { strong = 0; weak = 0; is_alive = true; is_freed = false })
          m.blocks);
  owners = some b ∷ m.owners;
}

-- A new owner by copy.
unfoldable pub copy : ℕ → Memory → Memory
copy i m = record m {
  blocks = on_block (at m.owners i) inc_strong m.blocks;
  owners = at m.owners i ∷ m.owners;
}

-- A new owner by move: the other one is null then.
unfoldable pub move : ℕ → Memory → Memory
move i m = record m { owners = at m.owners i ∷ put m.owners i none }

-- `reset`, and the destructor, after which the variable counts as null.
unfoldable pub reset : ℕ → Memory → Memory
reset i m = record m {
  blocks = on_block (at m.owners i) dec_strong m.blocks;
  owners = put m.owners i none;
}

-- `operator =`: what the variable points to is released first; the other variable is read after that.
unfoldable pub assign : ℕ → ℕ → Memory → Memory
assign i j m =
    let released = on_block (at m.owners i) dec_strong m.blocks in
    record m {
      blocks = on_block (at m.owners j) inc_strong released;
      owners = put m.owners i (at m.owners j);
    }

-- A new reference to what an owner points to.
unfoldable pub refer : ℕ → Memory → Memory
refer i m = record m {
  blocks = on_block (at m.owners i) inc_weak m.blocks;
  refs = at m.owners i ∷ m.refs;
}

-- A new reference by copy, and by move, after which the other one is null.
unfoldable pub copy_ref : ℕ → Memory → Memory
copy_ref i m = record m {
  blocks = on_block (at m.refs i) inc_weak m.blocks;
  refs = at m.refs i ∷ m.refs;
}

unfoldable pub move_ref : ℕ → Memory → Memory
move_ref i m = record m { refs = at m.refs i ∷ put m.refs i none }

-- `operator =` of a reference, from a reference and from an owner, which are read after the release.
unfoldable pub assign_ref : ℕ → ℕ → Memory → Memory
assign_ref i j m =
    let released = on_block (at m.refs i) dec_weak m.blocks in
    record m {
      blocks = on_block (at m.refs j) inc_weak released;
      refs = put m.refs i (at m.refs j);
    }

unfoldable pub assign_owner : ℕ → ℕ → Memory → Memory
assign_owner i j m =
    let released = on_block (at m.refs i) dec_weak m.blocks in
    record m {
      blocks = on_block (at m.owners j) inc_weak released;
      refs = put m.refs i (at m.owners j);
    }

-- `cs_safe`: an owner more, from a pointer to an object that lives.
unfoldable pub cs_safe : ℕ → Memory → Memory
cs_safe b m = record m {
  blocks = on_block (some b) inc_strong m.blocks;
  owners = some b ∷ m.owners;
}

-- The destructor of a reference.
unfoldable pub drop_ref : ℕ → Memory → Memory
drop_ref i m = record m {
  blocks = on_block (at m.refs i) dec_weak m.blocks;
  refs = put m.refs i none;
}

-- `operator bool` of a reference: there is an owner still.
unfoldable pub is_valid : Option ℕ → Memory → Bool
is_valid none m = false
is_valid (some b) m = ltb 0 (m.blocks b).strong

-- `operator *` of a reference: the block of the object, or an exception.
unfoldable pub deref : Option ℕ → Memory → Option ℕ
unfolding is_valid
deref p m = if is_valid p m then p else none

-- `operator ==` and `operator bool` of owners.
unfoldable pub same_block : Option ℕ → Option ℕ → Bool
same_block none none = true
same_block (some a) (some b) = a == b
same_block _ _ = false

unfoldable pub is_null : Option ℕ → Bool
is_null none = true
is_null (some b) = false

-- `operator &` of a reference: a new owner, or the null pointer.
unfoldable pub lock : ℕ → Memory → Memory
lock i m =
    if is_valid (at m.refs i) m
    then record m {
      blocks = on_block (at m.refs i) inc_strong m.blocks;
      owners = at m.refs i ∷ m.owners;
    }
    else record m { owners = none ∷ m.owners }
