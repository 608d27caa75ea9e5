-- ===== src/Ptr/Owners.antt =====
-- ptr.hxx: no block is freed while something points to it, and none is left when nothing does.
use cornerstone.Common.{
  ℕ, ◌+◌, ◌-◌, ◌<◌, ◌≡◌, ◌^◌, refl, Option, none, some, true, ◌==◌, arith, length, Bool-cases, inl,
  inr, subst, sym, ==→eq, ltb→lt, ◌∙◌,
}
use cornerstone.Ptr
use cornerstone.Ptr.{
  Block, Memory, inc_strong, inc_weak, dec_strong, dec_weak, on_block, change, at, put, is_valid,
}
use cornerstone.Ptr.Counts.{
  hit, count, hit_cases, count_le, hit-at, count-put, Agrees, inc_strong-Agrees, inc_weak-Agrees,
  dec_strong-Agrees, dec_weak-Agrees, on_block-Agrees,
}

-- Every block agrees with the variables.
abbrev pub IsCounted : Memory → Type 0
IsCounted m = (x : ℕ) → Agrees (m.blocks x) (count x m.owners) (count x m.refs)

-- Few enough variables for the counters.
pub record IsRoomy (m : Memory) : Type 0 where
  pub owners : length m.owners < 2 ^ 31
  pub refs : length m.refs < 2 ^ 31

valid_strong :
    (m : Memory) (x : ℕ) (p : Option ℕ)
    → is_valid p m ≡ true
    → hit x p ≡ 1
    → 0 < (m.blocks x).strong
unfolding is_valid
valid_strong m x none v e = absurd (omega (arith, e))
valid_strong m x (some b) v e = elim (Bool-cases (x == b)) [
  | inl q ↦
      subst (λ y. 0 < (m.blocks y).strong) (sym (==→eq x b q)) (ltb→lt 0 (m.blocks b).strong v)
  | inr q ↦ absurd (ground (arith, q, e))
]

module _ (m : Memory) (h : IsCounted m) (r : IsRoomy m) (x : ℕ) where
  abbrev c : ℕ
  c = count x m.owners

  abbrev d : ℕ
  d = count x m.refs

  pub owners_few : c < 2 ^ 31
  owners_few = omega (arith, r.owners, count_le x m.owners)

  pub refs_few : d < 2 ^ 31
  refs_few = omega (arith, r.refs, count_le x m.refs)

  pub copy-Agrees :
      (i : ℕ)
      → Agrees
          ((Ptr.copy i m).blocks x)
          (count x (Ptr.copy i m).owners)
          (count x (Ptr.copy i m).refs)
  unfolding Ptr.copy
  copy-Agrees i =
      on_block-Agrees (at m.owners i) inc_strong m.blocks x c d (hit x (at m.owners i) + c) d (h x)
        (λ e. rw (let q : hit x (at m.owners i) + c ≡ c + 1 = omega (arith, e) in q) (
          inc_strong-Agrees (m.blocks x) c d (h x) (omega (arith, e, hit-at x m.owners i))
            owners_few))
        (λ e. (omega (arith, e), refl))

  pub reset-Agrees :
      (i : ℕ)
      → i < length m.owners
      → Agrees
          ((Ptr.reset i m).blocks x)
          (count x (Ptr.reset i m).owners)
          (count x (Ptr.reset i m).refs)
  unfolding Ptr.reset
  reset-Agrees i b =
      on_block-Agrees (at m.owners i) dec_strong m.blocks x c d (count x (put m.owners i none)) d
        (h x)
        (λ e.
          rw
            (let q : count x (put m.owners i none) ≡ c - 1 =
                omega (arith, e, count-put x m.owners i none b) in
              q)
            (dec_strong-Agrees (m.blocks x) c d (h x) (omega (arith, e, hit-at x m.owners i))
              owners_few refs_few))
        (λ e. (omega (arith, e, count-put x m.owners i none b), refl))

  pub move-Agrees :
      (i : ℕ)
      → i < length m.owners
      → Agrees
          ((Ptr.move i m).blocks x)
          (count x (Ptr.move i m).owners)
          (count x (Ptr.move i m).refs)
  unfolding Ptr.move
  move-Agrees i b =
      rw
        (let q : hit x (at m.owners i) + count x (put m.owners i none) ≡ c =
            omega (arith, count-put x m.owners i none b) in
          q)
        (h x)

  pub refer-Agrees :
      (i : ℕ)
      → Agrees
          ((Ptr.refer i m).blocks x)
          (count x (Ptr.refer i m).owners)
          (count x (Ptr.refer i m).refs)
  unfolding Ptr.refer
  refer-Agrees i =
      on_block-Agrees (at m.owners i) inc_weak m.blocks x c d c (hit x (at m.owners i) + d) (h x)
        (λ e.
          rw (let q : hit x (at m.owners i) + d ≡ d + 1 = omega (arith, e) in q) (
            inc_weak-Agrees (m.blocks x) c d (h x) (omega (arith, e, hit-at x m.owners i))
              refs_few))
        (λ e. (refl, omega (arith, e)))

  pub drop_ref-Agrees :
      (i : ℕ)
      → i < length m.refs
      → Agrees
          ((Ptr.drop_ref i m).blocks x)
          (count x (Ptr.drop_ref i m).owners)
          (count x (Ptr.drop_ref i m).refs)
  unfolding Ptr.drop_ref
  drop_ref-Agrees i b =
      on_block-Agrees (at m.refs i) dec_weak m.blocks x c d c (count x (put m.refs i none)) (h x)
        (λ e.
          rw
            (let q : count x (put m.refs i none) ≡ d - 1 =
                omega (arith, e, count-put x m.refs i none b) in
              q)
            (dec_weak-Agrees (m.blocks x) c d (h x) (omega (arith, e, hit-at x m.refs i)) refs_few))
        (λ e. (refl, omega (arith, e, count-put x m.refs i none b)))

  -- What a variable points to is released before it points elsewhere, so that it must not be the last
  -- owner of what it is given.
  pub assign-Agrees :
      (i j : ℕ)
      → i < length m.owners
      → (hit x (at m.owners i) ≡ 1 → hit x (at m.owners j) ≡ 1 → 1 < c)
      → Agrees
          ((Ptr.assign i j m).blocks x)
          (count x (Ptr.assign i j m).owners)
          (count x (Ptr.assign i j m).refs)
  unfolding Ptr.assign
  assign-Agrees i j b s =
      on_block-Agrees (at m.owners j) inc_strong (on_block (at m.owners i) dec_strong m.blocks) x
        (c - hit x (at m.owners i)) d (count x (put m.owners i (at m.owners j))) d released
        (λ e.
          rw
            (let q : count x (put m.owners i (at m.owners j)) ≡ c - hit x (at m.owners i) + 1 =
                omega (arith, e, hit-at x m.owners i, count-put x m.owners i (at m.owners j) b) in
              q)
            (inc_strong-Agrees (on_block (at m.owners i) dec_strong m.blocks x)
              (c - hit x (at m.owners i)) d released (owned e) (omega (arith, owners_few))))
        (λ e.
          (omega (arith, e, hit-at x m.owners i, count-put x m.owners i (at m.owners j) b), refl))
    where
      released :
          Agrees (on_block (at m.owners i) dec_strong m.blocks x) (c - hit x (at m.owners i)) d
      released =
          on_block-Agrees (at m.owners i) dec_strong m.blocks x c d (c - hit x (at m.owners i)) d
            (h x)
            (λ e. rw e (
              dec_strong-Agrees (m.blocks x) c d (h x) (omega (arith, e, hit-at x m.owners i))
                owners_few refs_few))
            (λ e. (omega (arith, e), refl))

      owned : hit x (at m.owners j) ≡ 1 → 0 < c - hit x (at m.owners i)
      owned e = elim (hit_cases x (at m.owners i)) [
        | inl z ↦ omega (arith, z, e, hit-at x m.owners j)
        | inr z ↦ omega (arith, z, s z e)
      ]

  pub lock-Agrees :
      (i : ℕ)
      → Agrees
          ((Ptr.lock i m).blocks x)
          (count x (Ptr.lock i m).owners)
          (count x (Ptr.lock i m).refs)
  unfolding Ptr.lock
  lock-Agrees i = elim (Bool-cases (is_valid (at m.refs i) m)) [
    | inl v ↦ rw v (
        on_block-Agrees (at m.refs i) inc_strong m.blocks x c d (hit x (at m.refs i) + c) d (h x)
          (λ e. rw (let q : hit x (at m.refs i) + c ≡ c + 1 = omega (arith, e) in q) (
            inc_strong-Agrees (m.blocks x) c d (h x)
              (omega (arith, (h x).strong, valid_owned (at m.refs i) v e)) owners_few))
          (λ e. (omega (arith, e), refl)))
    | inr v ↦ rw v (rw (let q : 0 + c ≡ c = omega arith in q) (h x))
  ]
    where
      valid_owned : (p : Option ℕ) → is_valid p m ≡ true → hit x p ≡ 1 → 0 < (m.blocks x).strong
      valid_owned p v e = valid_strong m x p v e

  pub cs_new-Agrees :
      (b : ℕ)
      → (m.blocks b).is_freed ≡ true
      → Agrees
          ((Ptr.cs_new b m).blocks x)
          (count x (Ptr.cs_new b m).owners)
          (count x (Ptr.cs_new b m).refs)
  unfolding Ptr.cs_new on_block change inc_strong
  cs_new-Agrees b f = elim (Bool-cases (x == b)) [
    | inl e ↦
        let n : count x m.owners + count x m.refs ≡ 0 =
          ==→eq (count x m.owners + count x m.refs) 0
            (sym (h x).freed ∙ subst (λ y. (m.blocks y).is_freed ≡ true) (sym (==→eq x b e)) f) in
        rw e record {
          strong = omega (arith, n);
          weak = omega (arith, n);
          alive = λ _. refl;
          freed = ground (arith, n);
        }
    | inr e ↦ rw e (rw (let q : 0 + c ≡ c = omega arith in q) (h x))
  ]
