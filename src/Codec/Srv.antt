-- ===== src/Codec/Srv.antt =====
-- srv_config.hxx and srv_config.cxx: a server's id and endpoint.
use cornerstone.Common.{
  ℕ, ◌+◌, ◌<◌, ◌≡◌, sym, ap, ◌∙◌, List, [], ◌∷◌, ◌++◌, length, arith, IsU32, All, Option, none,
  some, append_assoc, append-nil, length-append,
}
use cornerstone.Buffer.{
  Buffer, Result, ok, err, runtime_error, ◌>>=◌, alloc, set_pos, put_int, put_str, get_int, get_str,
  int_bytes, sz_int,
}
use cornerstone.Buffer.Laws.{
  cursor, Fits, Fits-next, alloc-puts, get_int-cursor, get_str-cursor, get_str_empty,
  length-int_bytes,
}

pub record SrvConfig : Type 0 where
  pub id : ℕ
  pub endpoint : List ℕ

unfoldable pub serialize : SrvConfig → Result Buffer
serialize s = do
  b ← alloc (sz_int + length s.endpoint + 1)
  b ← put_int b s.id
  b ← put_str b s.endpoint
  ok (set_pos b 0)

-- `std::string` of the null pointer that `get_str` returns is an error.
unfoldable pub string_of : Option (List ℕ) → Result (List ℕ)
string_of none = err runtime_error
string_of (some str) = ok str

-- The server that is read, and the buffer behind it.
unfoldable pub deserialize : Buffer → Result (SrvConfig × Buffer)
deserialize b = do
  (id, b) ← get_int b
  let (str, b) = get_str b
  endpoint ← string_of str
  ok (record { id = id; endpoint = endpoint }, b)

-- An endpoint is not empty and holds no zero byte.
pub record IsSrv (s : SrvConfig) : Type 0 where
  pub id : IsU32 s.id
  pub text : All (λ c. 0 < c) s.endpoint
  pub nonempty : 0 < length s.endpoint

unfoldable pub image : SrvConfig → List ℕ
image s = int_bytes s.id ++ (s.endpoint ++ (0 ∷ []))

pub length-image : (s : SrvConfig) → length (image s) ≡ 4 + length s.endpoint + 1
unfolding image
length-image s = omega (
  arith,
  length-append (int_bytes s.id) (s.endpoint ++ (0 ∷ [])),
  length-append s.endpoint (0 ∷ []),
  length-int_bytes s.id,
)

pub serialize-image :
    (s : SrvConfig) → Fits (length (image s)) → serialize s ≡ ok (cursor [] (image s))
unfolding serialize image put_int put_str
serialize-image s h =
    alloc-puts (4 + length s.endpoint + 1) (int_bytes s.id ∷ (s.endpoint ++ (0 ∷ [])) ∷ [])
      (omega (arith, h, length-image s)) (rw append-nil (length-image s))
    ∙ rw append-nil

pub deserialize-image :
    (done : List ℕ) (s : SrvConfig) (rest : List ℕ)
    → IsSrv s
    → Fits (length done + length (image s ++ rest))
    → deserialize (cursor done (image s ++ rest)) ≡ ok (s, cursor (done ++ image s) rest)
unfolding deserialize image string_of
deserialize-image done s rest v h =
    rw
      (
        parts,
        get_int-cursor done (s.endpoint ++ (0 ∷ rest)) s.id v.id fits,
        get_str-cursor (done ++ int_bytes s.id) s.endpoint rest v.text v.nonempty
            (Fits-next done (int_bytes s.id) (s.endpoint ++ (0 ∷ rest)) fits),
      )
      (ap (λ d. ok (s, cursor d rest))
        (append_assoc done (int_bytes s.id) (s.endpoint ++ (0 ∷ []))))
  where
    parts :
        int_bytes s.id ++ (s.endpoint ++ (0 ∷ [])) ++ rest
        ≡ int_bytes s.id ++ (s.endpoint ++ (0 ∷ rest))
    parts =
        append_assoc (int_bytes s.id) (s.endpoint ++ (0 ∷ [])) rest
        ∙ ap (◌++◌ (int_bytes s.id)) (append_assoc s.endpoint (0 ∷ []) rest)

    fits : Fits (length done + length (int_bytes s.id ++ (s.endpoint ++ (0 ∷ rest))))
    fits = rw (← parts) h

-- A server that is written and read back is the server, and nothing is left.
pub srv_deserialize-serialize :
    (s : SrvConfig)
    → IsSrv s
    → Fits (length (image s))
    → (serialize s >>= deserialize) ≡ ok (s, cursor (image s) [])
srv_deserialize-serialize s v h = rw (serialize-image s h) (
    ap (λ bs. deserialize (cursor [] bs)) (sym (append-nil (image s)))
    ∙ deserialize-image [] s [] v (rw (append-nil (image s)) (omega (arith, h))))

-- An empty endpoint is written, and cannot be read back.
deserialize-serialize_empty :
    (id : ℕ)
    → IsU32 id
    → (serialize (record { id = id; endpoint = [] }) >>= deserialize) ≡ err runtime_error
unfolding deserialize string_of image
deserialize-serialize_empty id h = rw (
  serialize-image (record { id = id; endpoint = [] }) fits,
  get_int-cursor [] (0 ∷ []) id h (omega (arith, fits)),
  get_str_empty (int_bytes id) [],
)
  where
    fits : Fits (length (int_bytes id ++ (0 ∷ [])))
    fits = omega (arith, length-append (int_bytes id) (0 ∷ []), length-int_bytes id)
