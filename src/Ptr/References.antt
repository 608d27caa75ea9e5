-- ===== src/Ptr/References.antt =====
-- ptr.hxx: copies, moves and assignments of references, and owners that are made from an object.
use cornerstone.Common.{
  ℕ, ◌+◌, ◌-◌, ◌<◌, ◌≡◌, refl, Option, none, some, arith, length, inl, inr, Bool-cases, ◌==◌, subst,
  sym, ==→eq,
}
use cornerstone.Ptr
use cornerstone.Ptr.{Memory, inc_strong, inc_weak, dec_weak, on_block, at, put}
use cornerstone.Ptr.Counts.{
  hit, count, hit_cases, hit-at, count-put, Agrees, inc_strong-Agrees, inc_weak-Agrees,
  dec_weak-Agrees, on_block-Agrees,
}
use cornerstone.Ptr.Owners.{IsCounted, IsRoomy, owners_few, refs_few}

module _ (m : Memory) (h : IsCounted m) (r : IsRoomy m) (x : ℕ) where
  abbrev c : ℕ
  c = count x m.owners

  abbrev d : ℕ
  d = count x m.refs

  pub copy_ref-Agrees :
      (i : ℕ)
      → Agrees
          ((Ptr.copy_ref i m).blocks x)
          (count x (Ptr.copy_ref i m).owners)
          (count x (Ptr.copy_ref i m).refs)
  unfolding Ptr.copy_ref
  copy_ref-Agrees i =
      on_block-Agrees (at m.refs i) inc_weak m.blocks x c d c (hit x (at m.refs i) + d) (h x)
        (λ e. rw (let q : hit x (at m.refs i) + d ≡ d + 1 = omega (arith, e) in q) (
          inc_weak-Agrees (m.blocks x) c d (h x) (omega (arith, e, hit-at x m.refs i))
            (refs_few m h r x)))
        (λ e. (refl, omega (arith, e)))

  pub move_ref-Agrees :
      (i : ℕ)
      → i < length m.refs
      → Agrees
          ((Ptr.move_ref i m).blocks x)
          (count x (Ptr.move_ref i m).owners)
          (count x (Ptr.move_ref i m).refs)
  unfolding Ptr.move_ref
  move_ref-Agrees i b =
      rw
        (let q : hit x (at m.refs i) + count x (put m.refs i none) ≡ d =
            omega (arith, count-put x m.refs i none b) in
          q)
        (h x)

  -- What a reference points to is released first.
  released-Agrees :
      (i : ℕ) → Agrees (on_block (at m.refs i) dec_weak m.blocks x) c (d - hit x (at m.refs i))
  released-Agrees i =
      on_block-Agrees (at m.refs i) dec_weak m.blocks x c d c (d - hit x (at m.refs i)) (h x)
        (λ e. rw e (
          dec_weak-Agrees (m.blocks x) c d (h x) (omega (arith, e, hit-at x m.refs i))
            (refs_few m h r x)))
        (λ e. (refl, omega (arith, e)))

  -- Then it points to `p`, to which something else points, too.
  pointed-Agrees :
      (i : ℕ) (p : Option ℕ)
      → i < length m.refs
      → (hit x p ≡ 1 → 0 < c + (d - hit x (at m.refs i)))
      → Agrees
          (on_block p inc_weak (on_block (at m.refs i) dec_weak m.blocks) x)
          c
          (count x (put m.refs i p))
  pointed-Agrees i p b s =
      on_block-Agrees p inc_weak (on_block (at m.refs i) dec_weak m.blocks) x c
        (d - hit x (at m.refs i)) c (count x (put m.refs i p)) (released-Agrees i)
        (λ e.
          rw
            (let q : count x (put m.refs i p) ≡ d - hit x (at m.refs i) + 1 =
                omega (arith, e, hit-at x m.refs i, count-put x m.refs i p b) in
              q)
            (inc_weak-Agrees (on_block (at m.refs i) dec_weak m.blocks x) c
              (d - hit x (at m.refs i)) (released-Agrees i) (s e)
              (omega (arith, refs_few m h r x))))
        (λ e. (refl, omega (arith, e, hit-at x m.refs i, count-put x m.refs i p b)))

  pub assign_ref-Agrees :
      (i j : ℕ)
      → i < length m.refs
      → (hit x (at m.refs i) ≡ 1 → hit x (at m.refs j) ≡ 1 → 1 < c + d)
      → Agrees
          ((Ptr.assign_ref i j m).blocks x)
          (count x (Ptr.assign_ref i j m).owners)
          (count x (Ptr.assign_ref i j m).refs)
  unfolding Ptr.assign_ref
  assign_ref-Agrees i j b s = pointed-Agrees i (at m.refs j) b kept
    where
      kept : hit x (at m.refs j) ≡ 1 → 0 < c + (d - hit x (at m.refs i))
      kept e = elim (hit_cases x (at m.refs i)) [
        | inl z ↦ omega (arith, z, e, hit-at x m.refs j)
        | inr z ↦ omega (arith, z, s z e)
      ]

  pub assign_owner-Agrees :
      (i j : ℕ)
      → i < length m.refs
      → Agrees
          ((Ptr.assign_owner i j m).blocks x)
          (count x (Ptr.assign_owner i j m).owners)
          (count x (Ptr.assign_owner i j m).refs)
  unfolding Ptr.assign_owner
  assign_owner-Agrees i j b =
      pointed-Agrees i (at m.owners j) b (λ e. omega (arith, e, hit-at x m.owners j))

  pub cs_safe-Agrees :
      (b : ℕ)
      → 0 < count b m.owners
      → Agrees
          ((Ptr.cs_safe b m).blocks x)
          (count x (Ptr.cs_safe b m).owners)
          (count x (Ptr.cs_safe b m).refs)
  unfolding Ptr.cs_safe
  cs_safe-Agrees b o =
      on_block-Agrees (some b) inc_strong m.blocks x c d (hit x (some b) + c) d (h x)
        (λ e.
          rw (let q : hit x (some b) + c ≡ c + 1 = omega (arith, e) in q)
            (inc_strong-Agrees (m.blocks x) c d (h x) (owned e) (owners_few m h r x)))
        (λ e. (omega (arith, e), refl))
    where
      owned : hit x (some b) ≡ 1 → 0 < c
      owned e = elim (Bool-cases (x == b)) [
        | inl q ↦ subst (λ y. 0 < count y m.owners) (sym (==→eq x b q)) o
        | inr q ↦ absurd (ground (arith, q, e))
      ]
