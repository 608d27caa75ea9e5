-- ===== src/Store/Layout.antt =====
-- fs_log_store.cxx: how the entries of the log stand in the files: the bytes of the entries one after
-- the other, and the offset of each, in eight bytes.
use cornerstone.Common.{
  All, ◌<◌, ℕ, zero, suc, ◌+◌, ◌*◌, ◌<◌, ◌≤◌, ◌≡◌, refl, sym, ap, ◌∙◌, List, [], ◌∷◌, ◌++◌, length,
  take, drop, arith, append_assoc, length-append, none, some, get_elem?, IsU64, take-append,
  drop-append, leb, true, append-nil, replicate, length-replicate,
}
use cornerstone.Buffer.{ok, ulong_bytes, avail, get_ulong}
use cornerstone.Buffer.Laws.{
  Fits, length-ulong_bytes, get_ulong-cursor, alloc_lem, cursor, avail-cursor,
}
use cornerstone.Codec.Entry.{LogEntry, image}
use cornerstone.Store.File
use cornerstone.Store.File.{File, file}
use cornerstone.Store.State.{Store, Which, file_of, set_file, read_buffer, read_ulong}

unfoldable pub images : List LogEntry → List ℕ
images [] = []
images (e ∷ es) = image e ++ images es

unfoldable pub offsets : ℕ → List LogEntry → List ℕ
offsets p [] = []
offsets p (e ∷ es) = ulong_bytes p ++ offsets (p + length (image e)) es

pub images-append : (xs ys : List LogEntry) → images (xs ++ ys) ≡ images xs ++ images ys
unfolding images
images-append [] ys = refl
images-append (x ∷ xs) ys =
    ap (◌++◌ (image x)) (images-append xs ys) ∙ sym (append_assoc (image x) (images xs) (images ys))

pub offsets-append :
    (p : ℕ) (xs ys : List LogEntry)
    → offsets p (xs ++ ys) ≡ offsets p xs ++ offsets (p + length (images xs)) ys
unfolding offsets images
offsets-append p [] ys = ap (λ q. offsets q ys) (omega arith)
offsets-append p (x ∷ xs) ys =
    ap (◌++◌ (ulong_bytes p)) (offsets-append (p + length (image x)) xs ys)
    ∙ ap (λ q. ulong_bytes p ++ (offsets (p + length (image x)) xs ++ offsets q ys))
        (omega (arith, length-append (image x) (images xs)))
    ∙ sym (
        append_assoc (ulong_bytes p) (offsets (p + length (image x)) xs)
          (offsets (p + length (images (x ∷ xs))) ys))

pub length-offsets : (p : ℕ) (es : List LogEntry) → length (offsets p es) ≡ 8 * length es
unfolding offsets
length-offsets p [] = omega arith
length-offsets p (e ∷ es) = omega (
  arith,
  length-append (ulong_bytes p) (offsets (p + length (image e)) es),
  length-ulong_bytes p,
  length-offsets (p + length (image e)) es,
)

module _ {A : Type 0} where
  -- An element with another one behind it, and what is around them.
  pub record Split (xs : List A) (i : ℕ) : Type 0 where
    pub us : List A
    pub e : A
    pub f : A
    pub vs : List A
    pub same : xs ≡ us ++ (e ∷ f ∷ vs)
    pub count : length us ≡ i

  pub split : (xs : List A) (i : ℕ) → i + 1 < length xs → Split xs i
  split [] i h = absurd (omega (arith, h))
  split (x ∷ []) i h = absurd (omega (arith, h))
  split (x ∷ y ∷ xs) zero h = record { us = []; e = x; f = y; vs = xs; same = refl; count = refl }
  split (x ∷ y ∷ xs) (suc i) h =
      let r = split (y ∷ xs) i (omega (arith, h)) in
      record {
        us = x ∷ r.us;
        e = r.e;
        f = r.f;
        vs = r.vs;
        same = ap (◌∷◌ x) r.same;
        count = ap suc r.count;
      }

  -- An element, and what is around it.
  pub record Part (xs : List A) (i : ℕ) : Type 0 where
    pub us : List A
    pub e : A
    pub vs : List A
    pub same : xs ≡ us ++ (e ∷ vs)
    pub count : length us ≡ i

  pub part : (xs : List A) (i : ℕ) → i < length xs → Part xs i
  part [] i h = absurd (omega (arith, h))
  part (x ∷ xs) zero h = record { us = []; e = x; vs = xs; same = refl; count = refl }
  part (x ∷ xs) (suc i) h =
      let r = part xs i (omega (arith, h)) in
      record { us = x ∷ r.us; e = r.e; vs = r.vs; same = ap (◌∷◌ x) r.same; count = ap suc r.count }

  pub get_elem?-append :
      (us : List A) (e : A) (vs : List A) → get_elem? (us ++ (e ∷ vs)) (length us) ≡ some e
  get_elem?-append [] e vs = refl
  get_elem?-append (u ∷ us) e vs = get_elem?-append us e vs

  pub get_elem?-beyond : (xs : List A) (i : ℕ) → length xs ≤ i → get_elem? xs i ≡ none
  get_elem?-beyond [] i h = refl
  get_elem?-beyond (x ∷ xs) zero h = absurd (omega (arith, h))
  get_elem?-beyond (x ∷ xs) (suc i) h = get_elem?-beyond xs i (omega (arith, h))

  pub get_elem?-drop :
      (k : ℕ) (xs : List A) (i : ℕ) → get_elem? (drop k xs) i ≡ get_elem? xs (i + k)
  get_elem?-drop zero xs i = ap (get_elem? xs) (omega arith)
  get_elem?-drop (suc k) [] i = refl
  get_elem?-drop (suc k) (x ∷ xs) i =
      get_elem?-drop k xs i
      ∙ ap (get_elem? (x ∷ xs)) (let e : suc (i + k) ≡ i + suc k = omega arith in e)

pub All-append :
    {A : Type 0} (P : A → Type 0) (xs ys : List A) → All P (xs ++ ys) → All P xs × All P ys
All-append P [] ys h = (tt, h)
All-append P (x ∷ xs) ys (p, h) = let (a, b) = All-append P xs ys h in ((p, a), b)

-- The offset of an entry, and its bytes, in the files.
pub offsets-split :
    (us : List LogEntry) (e : LogEntry) (vs : List LogEntry)
    → offsets 0 (us ++ (e ∷ vs))
      ≡ offsets 0 us
        ++ (ulong_bytes (length (images us)) ++ offsets (length (images us) + length (image e)) vs)
unfolding offsets
offsets-split us e vs =
    offsets-append 0 us (e ∷ vs)
    ∙ ap (λ p. offsets 0 us ++ (ulong_bytes p ++ offsets (p + length (image e)) vs)) (omega arith)

pub images-split :
    (us : List LogEntry) (e : LogEntry) (vs : List LogEntry)
    → images (us ++ (e ∷ vs)) ≡ images us ++ (image e ++ images vs)
unfolding images
images-split us e vs = images-append us (e ∷ vs)

-- Reading what is between two parts of a file.
pub read-part :
    (bytes xs ys zs : List ℕ) (p n : ℕ)
    → bytes ≡ xs ++ (ys ++ zs)
    → p ≡ length xs
    → n ≡ length ys
    → File.read (file bytes p) n ≡ (ok ys, file bytes (p + n))
unfolding File.read
read-part bytes xs ys zs p n c e f = rw (e, f, enough, part) refl
  where
    enough : leb (length xs + length ys) (length bytes) ≡ true
    enough = ground (arith, ap length c, length-append xs (ys ++ zs), length-append ys zs)

    part : take (length ys) (drop (length xs) bytes) ≡ ys
    part = rw (c, drop-append xs (ys ++ zs)) (take-append ys zs)

-- A buffer with what is read, or a number.
module _ (w : Which) (s : Store) (bytes : List ℕ) (p : ℕ) (h : file_of w s ≡ file bytes p) where
  pub read_buffer-part :
      (xs ys zs : List ℕ) (n : ℕ)
      → bytes ≡ xs ++ (ys ++ zs)
      → p ≡ length xs
      → n ≡ length ys
      → Fits n
      → read_buffer w n s ≡ (ok (record { bytes = ys; pos = 0 }), set_file w (file bytes (p + n)) s)
  unfolding read_buffer
  read_buffer-part xs ys zs n c e f v =
      rw (alloc_lem n v, h, room, read-part bytes xs ys zs p n c e f) refl
    where
      room : avail (cursor [] (replicate n 0)) ≡ n
      room =
          avail-cursor [] (replicate n 0) (omega (arith, v, length-replicate {A = ℕ} n 0))
          ∙ length-replicate n 0

  pub read_ulong-part :
      (xs zs : List ℕ) (v : ℕ)
      → bytes ≡ xs ++ (ulong_bytes v ++ zs)
      → p ≡ length xs
      → IsU64 v
      → read_ulong w s ≡ (ok v, set_file w (file bytes (p + 8)) s)
  unfolding read_ulong
  read_ulong-part xs zs v c e b =
      rw
        (
          read_buffer-part xs (ulong_bytes v) zs 8 c e (sym (length-ulong_bytes v)) (omega arith),
          number,
        )
        refl
    where
      number :
          get_ulong (record { bytes = ulong_bytes v; pos = 0 }) ≡ ok (v, cursor (ulong_bytes v) [])
      number =
          ap (λ bs. get_ulong (record { bytes = bs; pos = 0 })) (sym (append-nil (ulong_bytes v)))
          ∙ get_ulong-cursor [] [] v b
              (omega (arith, length-append (ulong_bytes v) [], length-ulong_bytes v))
