-- ===== src/Raft/Medians.antt =====
-- raft_server.cxx: the index that a leader commits when a peer answers.
use cornerstone.Common.{
  ℕ, zero, suc, ◌+◌, ◌<◌, ◌≤◌, ◌*◌, ◌/◌, ◌≡◌, refl, ap, ◌∙◌, List, [], ◌∷◌, length, All, false, ltb,
  leb, if◌then◌else◌, arith, Bool-cases, ltb→lt, inl, inr,
}
use cornerstone.Raft.Peers.{Peers}
use cornerstone.Raft.Server.{Server}
use cornerstone.Raft.Responses.{
  insert_desc, sort_desc, matched_of, matched_indexes, nth_or_zero, median_matched,
}

-- How many of the numbers are at least `v`.
unfoldable pub count_ge : ℕ → List ℕ → ℕ
count_ge v [] = 0
count_ge v (x ∷ xs) = (if leb v x then 1 else 0) + count_ge v xs

abbrev IsDesc : List ℕ → Type 0
IsDesc [] = Unit
IsDesc (x ∷ xs) = All (λ y. y ≤ x) xs × IsDesc xs

count_ge-insert_desc : (v x : ℕ) (ys : List ℕ) → count_ge v (insert_desc x ys) ≡ count_ge v (x ∷ ys)
unfolding count_ge insert_desc
count_ge-insert_desc v x [] = refl
count_ge-insert_desc v x (y ∷ ys) = ground (arith, count_ge-insert_desc v x ys)

count_ge-sort_desc : (v : ℕ) (xs : List ℕ) → count_ge v (sort_desc xs) ≡ count_ge v xs
unfolding count_ge sort_desc
count_ge-sort_desc v [] = refl
count_ge-sort_desc v (x ∷ xs) =
    count_ge-insert_desc v x (sort_desc xs)
    ∙ ap (◌+◌ (if leb v x then 1 else 0)) (count_ge-sort_desc v xs)

length-insert_desc : (x : ℕ) (ys : List ℕ) → length (insert_desc x ys) ≡ suc (length ys)
unfolding insert_desc
length-insert_desc x [] = refl
length-insert_desc x (y ∷ ys) = ground (arith, length-insert_desc x ys)

length-sort_desc : (xs : List ℕ) → length (sort_desc xs) ≡ length xs
unfolding sort_desc
length-sort_desc [] = refl
length-sort_desc (x ∷ xs) = length-insert_desc x (sort_desc xs) ∙ ap suc (length-sort_desc xs)

All-insert_desc :
    (b x : ℕ) (ys : List ℕ) → x ≤ b → All (λ y. y ≤ b) ys → All (λ y. y ≤ b) (insert_desc x ys)
unfolding insert_desc
All-insert_desc b x [] h k = (h, tt)
All-insert_desc b x (y ∷ ys) h (k, ks) = elim (Bool-cases (ltb x y)) [
  | inl t ↦ rw t (k, All-insert_desc b x ys h ks)
  | inr t ↦ rw t (h, (k, ks))
]

All-le : (a b : ℕ) (ys : List ℕ) → a ≤ b → All (λ y. y ≤ a) ys → All (λ y. y ≤ b) ys
All-le a b [] h k = tt
All-le a b (y ∷ ys) h (k, ks) = (omega (arith, h, k), All-le a b ys h ks)

ltb_false→le : (x y : ℕ) → ltb x y ≡ false → y ≤ x
ltb_false→le x y h = ground (arith, h)

insert_desc-IsDesc : (x : ℕ) (ys : List ℕ) → IsDesc ys → IsDesc (insert_desc x ys)
unfolding insert_desc
insert_desc-IsDesc x [] h = (tt, tt)
insert_desc-IsDesc x (y ∷ ys) (h, hs) = elim (Bool-cases (ltb x y)) [
  | inl t ↦
      rw t (All-insert_desc y x ys (omega (arith, ltb→lt x y t)) h, insert_desc-IsDesc x ys hs)
  | inr t ↦ rw t ((ltb_false→le x y t, All-le y x ys (ltb_false→le x y t) h), (h, hs))
]

sort_desc-IsDesc : (xs : List ℕ) → IsDesc (sort_desc xs)
unfolding sort_desc
sort_desc-IsDesc [] = tt
sort_desc-IsDesc (x ∷ xs) = insert_desc-IsDesc x (sort_desc xs) (sort_desc-IsDesc xs)

nth_le : (b : ℕ) (xs : List ℕ) (i : ℕ) → i < length xs → All (λ y. y ≤ b) xs → nth_or_zero xs i ≤ b
unfolding nth_or_zero
nth_le b [] i h k = absurd (omega (arith, h))
nth_le b (x ∷ xs) zero h (k, ks) = k
nth_le b (x ∷ xs) (suc i) h (k, ks) = nth_le b xs i (omega (arith, h)) ks

-- The numbers up to position `i` of a descending list are at least the one there.
count_ge-nth :
    (xs : List ℕ) (i : ℕ) → i < length xs → IsDesc xs → i < count_ge (nth_or_zero xs i) xs
unfolding nth_or_zero count_ge
count_ge-nth [] i h k = absurd (omega (arith, h))
count_ge-nth (x ∷ xs) zero h (k, ks) = ground arith
count_ge-nth (x ∷ xs) (suc i) h (k, ks) =
    ground (arith, nth_le x xs i (omega (arith, h)) k, count_ge-nth xs i (omega (arith, h)) ks)

count_ge-sorted :
    (xs : List ℕ) (i : ℕ) → i < length xs → i < count_ge (nth_or_zero (sort_desc xs) i) xs
count_ge-sorted xs i h = omega (
  arith,
  count_ge-sort_desc (nth_or_zero (sort_desc xs) i) xs,
  count_ge-nth (sort_desc xs) i (omega (arith, h, length-sort_desc xs)) (sort_desc-IsDesc xs),
)

length-matched_of : (ps : Peers) → length (matched_of ps) ≡ length ps
unfolding matched_of
length-matched_of [] = refl
length-matched_of ((k, p) ∷ ps) = ap suc (length-matched_of ps)

-- The index that the leader commits is matched by more than half of the servers, itself included.
pub median_matched-majority :
    (s : Server) → length s.peers + 1 < 2 * count_ge (median_matched s) (matched_indexes s)
unfolding median_matched matched_indexes
median_matched-majority s = omega (
  arith,
  count_ge-sorted (matched_indexes s) ((length s.peers + 1) / 2)
      (omega (arith, length-matched_of s.peers)),
)
