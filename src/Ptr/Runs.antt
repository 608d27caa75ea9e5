-- ===== src/Ptr/Runs.antt =====
-- ptr.hxx: any sequence of operations on the variables.
use cornerstone.Common.{
  ℕ, zero, suc, ◌+◌, ◌-◌, ◌<◌, ◌≡◌, refl, List, [], ◌∷◌, Option, some, true, false, ◌==◌, arith,
  length, ==_refl, ◌∙◌,
}
use cornerstone.Ptr
use cornerstone.Ptr.{
  Block, Memory, on_block, change, at, put, dec_strong, inc_strong, destroy, down, up,
}
use cornerstone.Ptr.Counts.{hit, count, Agrees, dec_strong-Agrees}
use cornerstone.Ptr.Owners.{
  IsCounted, IsRoomy, copy-Agrees, reset-Agrees, move-Agrees, refer-Agrees, drop_ref-Agrees,
  assign-Agrees, lock-Agrees, cs_new-Agrees,
}
use cornerstone.Ptr.References.{
  copy_ref-Agrees, move_ref-Agrees, assign_ref-Agrees, assign_owner-Agrees, cs_safe-Agrees,
}

-- One operation. `assigns` does not give the last owner of a block to itself, nor `assigns_ref` the last
-- reference of a block without owners; `makes_safe` is given an object that an owner points to.
pub data Step : Memory → Memory → Type 0 where
  news : (b : ℕ) (m : Memory) → (m.blocks b).is_freed ≡ true → Step m (Ptr.cs_new b m)
  copies : (i : ℕ) (m : Memory) → Step m (Ptr.copy i m)
  moves : (i : ℕ) (m : Memory) → i < length m.owners → Step m (Ptr.move i m)
  resets : (i : ℕ) (m : Memory) → i < length m.owners → Step m (Ptr.reset i m)
  assigns :
      (i j : ℕ) (m : Memory)
      → i < length m.owners
      → ((x : ℕ) → hit x (at m.owners i) ≡ 1 → hit x (at m.owners j) ≡ 1 → 1 < count x m.owners)
      → Step m (Ptr.assign i j m)
  refers : (i : ℕ) (m : Memory) → Step m (Ptr.refer i m)
  copies_ref : (i : ℕ) (m : Memory) → Step m (Ptr.copy_ref i m)
  moves_ref : (i : ℕ) (m : Memory) → i < length m.refs → Step m (Ptr.move_ref i m)
  assigns_ref :
      (i j : ℕ) (m : Memory)
      → i < length m.refs
      → ((x : ℕ)
          → hit x (at m.refs i) ≡ 1
          → hit x (at m.refs j) ≡ 1
          → 1 < count x m.owners + count x m.refs)
      → Step m (Ptr.assign_ref i j m)
  assigns_owner : (i j : ℕ) (m : Memory) → i < length m.refs → Step m (Ptr.assign_owner i j m)
  makes_safe : (b : ℕ) (m : Memory) → 0 < count b m.owners → Step m (Ptr.cs_safe b m)
  drops : (i : ℕ) (m : Memory) → i < length m.refs → Step m (Ptr.drop_ref i m)
  locks : (i : ℕ) (m : Memory) → Step m (Ptr.lock i m)

pub data Run : Memory → Memory → Type 0 where
  done : (m : Memory) → Run m m
  then_step : (m m' m'' : Memory) → Run m m' → IsRoomy m' → Step m' m'' → Run m m''

Step-IsCounted : (m m' : Memory) → Step m m' → IsRoomy m → IsCounted m → IsCounted m'
Step-IsCounted _ _ (news b m f) r h = λ x. cs_new-Agrees m h r x b f
Step-IsCounted _ _ (copies i m) r h = λ x. copy-Agrees m h r x i
Step-IsCounted _ _ (moves i m b) r h = λ x. move-Agrees m h r x i b
Step-IsCounted _ _ (resets i m b) r h = λ x. reset-Agrees m h r x i b
Step-IsCounted _ _ (assigns i j m b s) r h = λ x. assign-Agrees m h r x i j b (s x)
Step-IsCounted _ _ (refers i m) r h = λ x. refer-Agrees m h r x i
Step-IsCounted _ _ (copies_ref i m) r h = λ x. copy_ref-Agrees m h r x i
Step-IsCounted _ _ (moves_ref i m b) r h = λ x. move_ref-Agrees m h r x i b
Step-IsCounted _ _ (assigns_ref i j m b s) r h = λ x. assign_ref-Agrees m h r x i j b (s x)
Step-IsCounted _ _ (assigns_owner i j m b) r h = λ x. assign_owner-Agrees m h r x i j b
Step-IsCounted _ _ (makes_safe b m o) r h = λ x. cs_safe-Agrees m h r x b o
Step-IsCounted _ _ (drops i m b) r h = λ x. drop_ref-Agrees m h r x i b
Step-IsCounted _ _ (locks i m) r h = λ x. lock-Agrees m h r x i

pub Run-IsCounted : (m m' : Memory) → Run m m' → IsCounted m → IsCounted m'
Run-IsCounted _ _ (done m) h = h
Run-IsCounted _ _ (then_step m m' m'' a r s) h = Step-IsCounted m' m'' s r (Run-IsCounted m m' a h)

-- No variables and no blocks in use.
unfoldable pub nothing : Memory
nothing = record {
  blocks = λ _. record { strong = 0; weak = 0; is_alive = false; is_freed = true };
  owners = [];
  refs = [];
}

pub nothing-IsCounted : IsCounted nothing
unfolding nothing
nothing-IsCounted x = record {
  strong = refl;
  weak = refl;
  alive = λ e. absurd (omega (arith, e));
  freed = refl;
}

-- After any operations with fewer than 2 ^ 31 variables of each kind, of which none assigns the last
-- owner of a block, or the last reference of a block without owners, to itself, and none makes an owner
-- of an object that has none, the memory of a block is free exactly when no owner and no reference
-- points to it, and its object lives while an owner does.
pub Run-Freed :
    (m : Memory) (x : ℕ)
    → Run nothing m
    → ((m.blocks x).is_freed ≡ (count x m.owners + count x m.refs == 0))
      × (0 < count x m.owners → (m.blocks x).is_alive ≡ true)
Run-Freed m x r = let a = Run-IsCounted nothing m r nothing-IsCounted x in (a.freed, a.alive)

at-put : (ps : List (Option ℕ)) (i x : ℕ) → at ps i ≡ some x → at (put ps i (at ps i)) i ≡ some x
unfolding at put
at-put [] i x e = e
at-put (p ∷ ps) zero x e = e
at-put (p ∷ ps) (suc i) x e = at-put ps i x e

-- Assigning the only owner of a block without references to itself frees the block, and the owner still
-- points to it.
pub assign-Dangling :
    (m : Memory) (i x : ℕ)
    → IsCounted m
    → at m.owners i ≡ some x
    → count x m.owners ≡ 1
    → count x m.refs ≡ 0
    → (((Ptr.assign i i m).blocks x).is_freed ≡ true) × (at (Ptr.assign i i m).owners i ≡ some x)
unfolding Ptr.assign on_block change inc_strong
assign-Dangling m i x h e c d =
    (rw (e, ==_refl x) (released.freed ∙ ground (arith, c, d)), at-put m.owners i x e)
  where
    released : Agrees (dec_strong (m.blocks x)) (count x m.owners - 1) (count x m.refs)
    released =
        dec_strong-Agrees (m.blocks x) (count x m.owners) (count x m.refs) (h x) (omega (arith, c))
          (omega (arith, c)) (omega (arith, d))
