-- ===== src/Buffer/Laws.antt =====
-- buffer.cxx: what the checked puts and gets do to a buffer that is written or read from the front.
use cornerstone.Common.{
  ℕ, suc, ◌+◌, ◌-◌, ◌*◌, ◌%◌, ◌^◌, ◌≤◌, ◌<◌, ◌≡◌, refl, ap, ◌∙◌, sym, List, [], ◌∷◌, ◌++◌, some,
  none, ◌==◌, length, drop, replicate, true, false, arith, length-append, length-drop, drop-append,
  take-append, All, IsU64, IsU32, IsByte, append_assoc, append-nil, length-replicate,
  drop-replicate, replicate, lt→ltb, le→ltb_false,
}
use cornerstone.Buffer.{
  Buffer, ok, err, overflow_error, out_of_range, alloc, move_forward, set_pos, overwrite, shift_in,
  data_of, avail, put_bytes, get_word, int_bytes, ulong_bytes, get_byte, get_int, get_ulong,
  until_zero, get_str, Result, ◌>>=◌, copy, put_buffer,
}

-- The bytes in `done` are behind the position, those in `rest` before it.
abbrev pub cursor : List ℕ → List ℕ → Buffer
cursor done rest = record { bytes = done ++ rest; pos = length done }

-- The sizes that a block has a header for.
abbrev pub Fits : ℕ → Type 0
Fits n = n < 2 ^ 31

module _ (done rest : List ℕ) where
  pub avail-cursor : Fits (length done + length rest) → avail (cursor done rest) ≡ length rest
  unfolding avail
  avail-cursor h = rw (length-append done rest) (omega arith)

  pub data_of-cursor : data_of (cursor done rest) ≡ rest
  unfolding data_of
  data_of-cursor = drop-append done rest

pub move_forward_lem :
    (bs : List ℕ) (p d : ℕ)
    → Fits (length bs)
    → p + d ≤ length bs
    → move_forward (record { bytes = bs; pos = p }) d ≡ record { bytes = bs; pos = p + d }
unfolding move_forward
move_forward_lem bs p d h k = ground arith

pub overwrite-append :
    (done room xs : List ℕ)
    → length xs ≤ length room
    → overwrite (done ++ room) (length done) xs ≡ done ++ (xs ++ drop (length xs) room)
unfolding overwrite
overwrite-append [] [] [] h = refl
overwrite-append [] (r ∷ room) [] h = refl
overwrite-append [] [] (x ∷ xs) h = absurd (omega arith)
overwrite-append [] (r ∷ room) (x ∷ xs) h = ap (◌∷◌ x) (overwrite-append [] room xs (omega arith))
overwrite-append (d ∷ done) room [] h = refl
overwrite-append (d ∷ done) room (x ∷ xs) h = ap (◌∷◌ d) (overwrite-append done room (x ∷ xs) h)

pub put_bytes-cursor :
    (done room xs : List ℕ)
    → Fits (length done + length room)
    → length xs ≤ length room
    → put_bytes (cursor done room) xs ≡ ok (cursor (done ++ xs) (drop (length xs) room))
unfolding put_bytes
put_bytes-cursor done room xs h k =
    rw (avail-cursor done room h, le→ltb_false _ _ k, overwrite-append done room xs k)
      (ap ok
        (move_forward_lem _ (length done) (length xs) fits ends ∙ rw (append_assoc, length-append)))
  where
    after : ℕ
    after = length (done ++ (xs ++ drop (length xs) room))

    after-eq : after ≡ length done + length room
    after-eq = omega (
      arith,
      length-append done (xs ++ drop (length xs) room),
      length-append xs (drop (length xs) room),
      length-drop (length xs) room,
    )

    fits : Fits after
    fits = omega (arith, after-eq)

    ends : length done + length xs ≤ after
    ends = omega (arith, after-eq)

-- With no room for the bytes nothing is written.
pub put_bytes-overflow :
    (done room xs : List ℕ)
    → Fits (length done + length room)
    → length room < length xs
    → put_bytes (cursor done room) xs ≡ err overflow_error
unfolding put_bytes
put_bytes-overflow done room xs h k = rw (avail-cursor done room h, lt→ltb _ _ k)

pub length-ulong_bytes : (v : ℕ) → length (ulong_bytes v) ≡ 8
unfolding ulong_bytes
length-ulong_bytes v = refl

pub length-int_bytes : (v : ℕ) → length (int_bytes v) ≡ 4
unfolding int_bytes
length-int_bytes v = refl

pub shift_in-ulong_bytes : (v : ℕ) → IsU64 v → shift_in 64 (ulong_bytes v) 0 0 ≡ v
unfolding ulong_bytes
shift_in-ulong_bytes v h = omega arith

pub shift_in-int_bytes : (v : ℕ) → IsU32 v → shift_in 32 (int_bytes v) 0 0 ≡ v
unfolding int_bytes
shift_in-int_bytes v h = omega arith

-- What is read joins what is behind the position.
pub Fits-next :
    (done xs rest : List ℕ)
    → Fits (length done + length (xs ++ rest))
    → Fits (length (done ++ xs) + length rest)
Fits-next done xs rest h = omega (arith, length-append done xs, length-append xs rest)

pub move_forward-cursor :
    (done xs rest : List ℕ) (n : ℕ)
    → length xs ≡ n
    → Fits (length done + length (xs ++ rest))
    → move_forward (cursor done (xs ++ rest)) n ≡ cursor (done ++ xs) rest
move_forward-cursor done xs rest n e h =
    move_forward_lem _ (length done) n
      (omega (arith, length-append done (xs ++ rest), length-append xs rest))
      (omega (arith, length-append done (xs ++ rest), length-append xs rest))
    ∙ rw (append_assoc, length-append, e)

-- A get of `count` bytes returns the number in front and moves past it.
get_word-cursor :
    (width count : ℕ) (done xs rest : List ℕ)
    → length xs ≡ count
    → Fits (length done + length (xs ++ rest))
    → get_word width count (cursor done (xs ++ rest))
      ≡ ok (shift_in width xs 0 0, cursor (done ++ xs) rest)
unfolding get_word
get_word-cursor width count done xs rest e h =
    rw
      (
        ← e,
        avail-cursor done (xs ++ rest) h,
        le→ltb_false _ _ enough,
        data_of-cursor done (xs ++ rest),
        take-append xs rest,
      )
      (ap (λ (b : Buffer). ok (shift_in width xs 0 0, b)) moved)
  where
    enough : length xs ≤ length (xs ++ rest)
    enough = omega (arith, length-append xs rest)

    moved : move_forward (cursor done (xs ++ rest)) (length xs) ≡ cursor (done ++ xs) rest
    moved = move_forward-cursor done xs rest (length xs) refl h

module _ (done rest : List ℕ) where
  pub get_ulong-cursor :
      (v : ℕ)
      → IsU64 v
      → Fits (length done + length (ulong_bytes v ++ rest))
      → get_ulong (cursor done (ulong_bytes v ++ rest))
        ≡ ok (v, cursor (done ++ ulong_bytes v) rest)
  unfolding get_ulong
  get_ulong-cursor v hv h =
      get_word-cursor 64 8 done (ulong_bytes v) rest (length-ulong_bytes v) h
      ∙ rw (shift_in-ulong_bytes v hv)

  pub get_int-cursor :
      (v : ℕ)
      → IsU32 v
      → Fits (length done + length (int_bytes v ++ rest))
      → get_int (cursor done (int_bytes v ++ rest)) ≡ ok (v, cursor (done ++ int_bytes v) rest)
  unfolding get_int
  get_int-cursor v hv h =
      get_word-cursor 32 4 done (int_bytes v) rest (length-int_bytes v) h
      ∙ rw (shift_in-int_bytes v hv)

  pub get_byte-cursor :
      (v : ℕ)
      → IsByte v
      → Fits (length done + suc (length rest))
      → get_byte (cursor done (v ∷ rest)) ≡ ok (v, cursor (done ++ (v ∷ [])) rest)
  unfolding get_byte
  get_byte-cursor v hv h =
      get_word-cursor 8 1 done (v ∷ []) rest refl h
      ∙ rw (let e : (0 + v * 1) % 256 ≡ v = omega arith in e)

-- A string is read up to its zero byte.
until_zero-append :
    (str rest : List ℕ) → All (λ c. 0 < c) str → until_zero (str ++ (0 ∷ rest)) ≡ (str, true)
unfolding until_zero
until_zero-append [] rest h = refl
until_zero-append (c ∷ str) rest (hc, h) = ground (arith, until_zero-append str rest h)

pub get_str-cursor :
    (done str rest : List ℕ)
    → All (λ c. 0 < c) str
    → 0 < length str
    → Fits (length done + length (str ++ (0 ∷ rest)))
    → get_str (cursor done (str ++ (0 ∷ rest)))
      ≡ (some str, cursor (done ++ (str ++ (0 ∷ []))) rest)
unfolding get_str
get_str-cursor done str rest h ne fits =
    rw (data_of-cursor done (str ++ (0 ∷ rest)), until_zero-append str rest h, nonempty, moved)
  where
    nonempty : (length str == 0) ≡ false
    nonempty = ground arith

    moved :
        move_forward (cursor done (str ++ (0 ∷ rest))) (length str + 1)
        ≡ cursor (done ++ (str ++ (0 ∷ []))) rest
    moved =
        ap (λ t. move_forward (cursor done t) (length str + 1))
          (sym (append_assoc str (0 ∷ []) rest))
        ∙ move_forward-cursor done (str ++ (0 ∷ [])) rest (length str + 1)
            (length-append str (0 ∷ []) ∙ omega arith) (rw (append_assoc str (0 ∷ []) rest) fits)

-- An empty string reads as the null pointer, and the position stays.
pub get_str_empty :
    (done rest : List ℕ) → get_str (cursor done (0 ∷ rest)) ≡ (none, cursor done (0 ∷ rest))
unfolding get_str until_zero
get_str_empty done rest = rw (data_of-cursor done (0 ∷ rest))

-- What the position-independent parts do at the ends.
pub alloc_lem : (n : ℕ) → Fits n → alloc n ≡ ok (cursor [] (replicate n 0))
unfolding alloc
alloc_lem n h = ground arith

pub alloc_too_big : (n : ℕ) → 2 ^ 31 ≤ n → alloc n ≡ err out_of_range
unfolding alloc
alloc_too_big n h = ground arith

pub set_pos_zero : (b : Buffer) → set_pos b 0 ≡ cursor [] b.bytes
unfolding set_pos
set_pos_zero b = ground arith

-- A buffer that is being filled: `n` zeroed bytes are left.
abbrev pub written : List ℕ → ℕ → Buffer
written done n = cursor done (replicate n 0)

pub put_bytes-written :
    (done : List ℕ) (n : ℕ) (xs : List ℕ)
    → Fits (length done + n)
    → length xs ≤ n
    → put_bytes (written done n) xs ≡ ok (written (done ++ xs) (n - length xs))
put_bytes-written done n xs h k =
    put_bytes-cursor done (replicate n 0) xs (omega (arith, room)) (omega (arith, room))
    ∙ ap (λ rest. ok (cursor (done ++ xs) rest)) (drop-replicate (length xs) n 0)
  where
    room : length (replicate {A = ℕ} n 0) ≡ n
    room = length-replicate n 0

written-eq : {d d' : List ℕ} {n n' : ℕ} → d ≡ d' → n ≡ n' → written d n ≡ written d' n'
written-eq p q = λ i. written (p i) (q i)

-- Binds after a bind.
pub bind_tail {ℓ} :
    {A B C : Type ℓ} (r : Result A) (f : A → Result B) (g : A → Result C) (k : B → Result C)
    → ((a : A) → (f a >>= k) ≡ g a)
    → (r >>= f >>= k) ≡ (r >>= g)
bind_tail (ok a) f g k h = h a
bind_tail (err e) f g k h = refl

-- Puts in a row, and what is done with the buffer then: the shape of every `serialize`.
abbrev pub puts {ℓ} : {A : Type ℓ} → Buffer → List (List ℕ) → (Buffer → Result A) → Result A
puts b [] k = k b
puts b (xs ∷ rest) k = put_bytes b xs >>= λ b'. puts b' rest k

abbrev pub flat : List (List ℕ) → List ℕ
flat [] = []
flat (xs ∷ rest) = xs ++ flat rest

pub puts-written {ℓ} :
    {A : Type ℓ} (done : List ℕ) (n : ℕ) (xss : List (List ℕ)) (k : Buffer → Result A)
    → Fits (length done + n)
    → length (flat xss) ≤ n
    → puts (written done n) xss k ≡ k (written (done ++ flat xss) (n - length (flat xss)))
puts-written done n [] k h e = ap k (written-eq (sym (append-nil done)) (omega arith))
puts-written done n (xs ∷ rest) k h e = rw (put_bytes-written done n xs h first) (
    puts-written (done ++ xs) (n - length xs) rest k fits' second
    ∙ ap k (
        written-eq (append_assoc done xs (flat rest))
          (omega (arith, length-append xs (flat rest)))))
  where
    first : length xs ≤ n
    first = omega (arith, length-append xs (flat rest))

    second : length (flat rest) ≤ n - length xs
    second = omega (arith, length-append xs (flat rest))

    fits' : Fits (length (done ++ xs) + (n - length xs))
    fits' = omega (arith, length-append done xs, first)

-- A full buffer, rewound.
set_pos-written : (all : List ℕ) (n : ℕ) → n ≡ 0 → set_pos (written all n) 0 ≡ cursor [] all
set_pos-written all n e =
    set_pos_zero (written all n)
    ∙ ap (cursor []) (ap (λ m. all ++ replicate m 0) e ∙ append-nil all)

-- A buffer of the right size, filled and rewound, holds what was put, in order.
pub alloc-puts :
    (n : ℕ) (xss : List (List ℕ))
    → Fits n
    → length (flat xss) ≡ n
    → (alloc n >>= λ b. puts b xss (λ b'. ok (set_pos b' 0))) ≡ ok (cursor [] (flat xss))
alloc-puts n xss h e = rw (alloc_lem n h) (
    puts-written [] n xss (λ b'. ok (set_pos b' 0)) (omega arith) (omega (arith, e))
    ∙ ap ok (set_pos-written (flat xss) (n - length (flat xss)) (omega (arith, e))))

-- A copy holds the bytes from the position on.
pub copy-cursor :
    (done rest : List ℕ)
    → Fits (length done + length rest)
    → copy (cursor done rest) ≡ ok (cursor [] rest)
unfolding copy put_buffer
copy-cursor done rest h =
    rw (avail-cursor done rest h, data_of-cursor done rest)
      (alloc-puts (length rest) (rest ∷ []) (omega arith) (rw append-nil) ∙ rw append-nil)
