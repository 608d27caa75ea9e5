-- ===== src/Ptr/Counts.antt =====
-- ptr.hxx: the counters are the numbers of the variables that point to a block.
use cornerstone.Common.{
  ℕ, zero, suc, ◌+◌, ◌-◌, ◌<◌, ◌≤◌, ◌≡◌, ◌^◌, refl, ap, ◌∙◌, List, [], ◌∷◌, Option, none, some,
  true, ◌==◌, if◌then◌else◌, arith, length, Bool-cases, inl, inr, ◌⊎◌,
}
use cornerstone.Ptr.{
  Block, inc_strong, inc_weak, dec_strong, dec_weak, destroy, on_block, change, at, put, up, down,
}

abbrev pub hit : ℕ → Option ℕ → ℕ
hit b none = 0
hit b (some x) = if b == x then 1 else 0

-- How many variables point to a block.
abbrev pub count : ℕ → List (Option ℕ) → ℕ
count b [] = 0
count b (p ∷ ps) = hit b p + count b ps

pub hit_cases : (b : ℕ) (p : Option ℕ) → (hit b p ≡ 0) ⊎ (hit b p ≡ 1)
hit_cases b none = inl refl
hit_cases b (some x) = elim (Bool-cases (b == x)) [
  | inl e ↦ inr (rw e refl)
  | inr e ↦ inl (rw e refl)
]

pub hit_le : (b : ℕ) (p : Option ℕ) → hit b p ≤ 1
hit_le b none = omega arith
hit_le b (some x) = ground arith

pub count_le : (b : ℕ) (ps : List (Option ℕ)) → count b ps ≤ length ps
count_le b [] = omega arith
count_le b (p ∷ ps) = omega (arith, count_le b ps, hit_le b p)

pub hit-at : (b : ℕ) (ps : List (Option ℕ)) (i : ℕ) → hit b (at ps i) ≤ count b ps
unfolding at
hit-at b [] i = omega arith
hit-at b (p ∷ ps) zero = omega arith
hit-at b (p ∷ ps) (suc i) = omega (arith, hit-at b ps i)

pub count-put :
    (b : ℕ) (ps : List (Option ℕ)) (i : ℕ) (q : Option ℕ)
    → i < length ps
    → count b (put ps i q) + hit b (at ps i) ≡ count b ps + hit b q
unfolding at put
count-put b [] i q h = absurd (omega (arith, h))
count-put b (p ∷ ps) zero q h = omega arith
count-put b (p ∷ ps) (suc i) q h = omega (arith, count-put b ps i q (omega (arith, h)))

pub length-put : (ps : List (Option ℕ)) (i : ℕ) (q : Option ℕ) → length (put ps i q) ≡ length ps
unfolding put
length-put [] i q = refl
length-put (p ∷ ps) zero q = refl
length-put (p ∷ ps) (suc i) q = ap suc (length-put ps i q)

-- A block with `c` owners and `d` references: its counters say so, its object lives while there is an
-- owner, and its memory is free exactly when nothing points to it.
pub record Agrees (k : Block) (c d : ℕ) : Type 0 where
  pub strong : k.strong ≡ c
  pub weak : k.weak ≡ d
  pub alive : 0 < c → k.is_alive ≡ true
  pub freed : k.is_freed ≡ (c + d == 0)

module _ (k : Block) (c d : ℕ) (h : Agrees k c d) where
  pub inc_strong-Agrees : 0 < c → c < 2 ^ 31 → Agrees (inc_strong k) (c + 1) d
  unfolding inc_strong
  inc_strong-Agrees a b = record {
    strong = omega (arith, h.strong, b);
    weak = h.weak;
    alive = λ _. h.alive a;
    freed = h.freed ∙ ground (arith, a);
  }

  pub inc_weak-Agrees : 0 < c + d → d < 2 ^ 31 → Agrees (inc_weak k) c (d + 1)
  unfolding inc_weak
  inc_weak-Agrees a b = record {
    strong = h.strong;
    weak = omega (arith, h.weak, b);
    alive = h.alive;
    freed = h.freed ∙ ground (arith, a);
  }

  pub dec_strong-Agrees : 0 < c → c < 2 ^ 31 → d < 2 ^ 31 → Agrees (dec_strong k) (c - 1) d
  unfolding dec_strong destroy
  dec_strong-Agrees a b e = elim (Bool-cases (c - 1 == 0)) [
    | inl z ↦ elim (Bool-cases (d == 0)) [
      | inl y ↦
          rw (less, same, z, y)
            record {
              strong = refl;
              weak = refl;
              alive = λ x. absurd (ground (arith, z, x));
              freed = ground (arith, z, y);
            }
      | inr y ↦
          rw (less, same, z, y)
            record {
              strong = refl;
              weak = refl;
              alive = λ x. absurd (ground (arith, z, x));
              freed = h.freed ∙ ground (arith, a, y);
            }
    ]
    | inr z ↦
        rw (less, z)
          record {
            strong = refl;
            weak = h.weak;
            alive = λ _. h.alive a;
            freed = h.freed ∙ ground (arith, a, z);
          }
  ]
    where
      less : down k.strong ≡ c - 1
      less = omega (arith, h.strong, a, b)

      same : down (up k.weak) ≡ d
      same = omega (arith, h.weak, e)

  pub dec_weak-Agrees : 0 < d → d < 2 ^ 31 → Agrees (dec_weak k) c (d - 1)
  unfolding dec_weak
  dec_weak-Agrees a b = elim (Bool-cases (d - 1 == 0)) [
    | inl z ↦ elim (Bool-cases (c == 0)) [
      | inl y ↦
          rw (less, h.strong, z, y)
            record { strong = refl; weak = refl; alive = h.alive; freed = ground (arith, z, y) }
      | inr y ↦
          rw (less, h.strong, z, y)
            record {
              strong = refl;
              weak = refl;
              alive = h.alive;
              freed = h.freed ∙ ground (arith, a, y);
            }
    ]
    | inr z ↦
        rw (less, z)
          record {
            strong = h.strong;
            weak = refl;
            alive = h.alive;
            freed = h.freed ∙ ground (arith, a, z);
          }
  ]
    where
      less : down k.weak ≡ d - 1
      less = omega (arith, h.weak, a, b)

-- What an operation on the block of a variable does to the counters of every block.
pub on_block-Agrees :
    (p : Option ℕ) (f : Block → Block) (blocks : ℕ → Block) (x c d c' d' : ℕ)
    → Agrees (blocks x) c d
    → (hit x p ≡ 1 → Agrees (f (blocks x)) c' d')
    → (hit x p ≡ 0 → (c' ≡ c) × (d' ≡ d))
    → Agrees (on_block p f blocks x) c' d'
unfolding on_block change
on_block-Agrees none f blocks x c d c' d' h g e = let (ec, ed) = e refl in rw (ec, ed) h
on_block-Agrees (some b) f blocks x c d c' d' h g e = elim (Bool-cases (x == b)) [
  | inl q ↦ rw q (g (rw q refl))
  | inr q ↦ let (ec, ed) = e (rw q refl) in rw (q, ec, ed) h
]
