-- ===== src/Codec/Config.antt =====
-- cluster_config.hxx and cluster_config.cxx: the servers of a cluster, with the log index of the
-- configuration and of the one before it.
use cornerstone.Common.{
  ℕ, zero, suc, ◌+◌, ◌*◌, ◌%◌, ◌^◌, ◌<◌, ◌≡◌, refl, sym, ap, ◌∙◌, List, [], ◌∷◌, ◌++◌, length,
  arith, IsU64, All, Option, none, some, append_assoc, append-nil, length-append, ltb, lt→ltb, ◌==◌,
  if◌then◌else◌,
}
use cornerstone.Buffer.{
  Buffer, Result, ok, ◌>>=◌, alloc, set_pos, put_int, put_ulong, put_buffer, put_bytes, get_int,
  get_ulong, int_bytes, ulong_bytes, size, data_of, sz_int, sz_ulong,
}
use cornerstone.Buffer.Laws.{
  cursor, Fits, Fits-next, alloc-puts, puts, flat, bind_tail, get_int-cursor, get_ulong-cursor,
  length-int_bytes, length-ulong_bytes,
}
use cornerstone.Codec.Srv
use cornerstone.Codec.Srv.{SrvConfig, IsSrv}

pub record ClusterConfig : Type 0 where
  pub log_idx : ℕ
  pub prev_log_idx : ℕ
  pub servers : List SrvConfig

unfoldable pub set_log_idx : ClusterConfig → ℕ → ClusterConfig
set_log_idx c idx = record c { log_idx = idx; prev_log_idx = c.log_idx }

unfoldable pub find_server : List SrvConfig → ℕ → Option SrvConfig
find_server [] id = none
find_server (s ∷ ss) id = if s.id == id then some s else find_server ss id

unfoldable pub get_server : ClusterConfig → ℕ → Option SrvConfig
get_server c id = find_server c.servers id

-- The first loop of `serialize`: a buffer for each server.
unfoldable pub serialize_servers : List SrvConfig → Result (List Buffer)
serialize_servers [] = ok []
serialize_servers (s ∷ ss) = do b ← Srv.serialize s; bs ← serialize_servers ss; ok (b ∷ bs)

unfoldable pub total_size : List Buffer → ℕ
total_size [] = 0
total_size (b ∷ bs) = size b + total_size bs

-- The second loop.
unfoldable pub put_all : Buffer → List Buffer → Result Buffer
put_all b [] = ok b
put_all b (src ∷ rest) = put_buffer b src >>= λ b'. put_all b' rest

unfoldable pub serialize : ClusterConfig → Result Buffer
serialize c = do
  srv_buffs ← serialize_servers c.servers
  b ← alloc (2 * sz_ulong + sz_int + total_size srv_buffs)
  b ← put_ulong b c.log_idx
  b ← put_ulong b c.prev_log_idx
  b ← put_int b (length c.servers % 2 ^ 32)
  b ← put_all b srv_buffs
  ok (set_pos b 0)

-- `while (cnt -- > 0)`
unfoldable pub deserialize_servers : ℕ → Buffer → Result (List SrvConfig × Buffer)
deserialize_servers zero b = ok ([], b)
deserialize_servers (suc cnt) b = do
  (s, b) ← Srv.deserialize b
  (ss, b) ← deserialize_servers cnt b
  ok (s ∷ ss, b)

-- The rounds of that loop for an int32: none for a negative one.
abbrev pub rounds : ℕ → ℕ
rounds cnt = if ltb cnt (2 ^ 31) then cnt else 0

unfoldable pub deserialize : Buffer → Result (ClusterConfig × Buffer)
deserialize b = do
  (log_idx, b) ← get_ulong b
  (prev_log_idx, b) ← get_ulong b
  (cnt, b) ← get_int b
  (servers, b) ← deserialize_servers (rounds cnt) b
  ok (record { log_idx = log_idx; prev_log_idx = prev_log_idx; servers = servers }, b)

abbrev pub images : List SrvConfig → List (List ℕ)
images [] = []
images (s ∷ ss) = Srv.image s ∷ images ss

unfoldable pub image : ClusterConfig → List ℕ
image c =
    ulong_bytes c.log_idx
    ++ (ulong_bytes c.prev_log_idx ++ (int_bytes (length c.servers) ++ flat (images c.servers)))

pub record IsConfig (c : ClusterConfig) : Type 0 where
  pub log_idx : IsU64 c.log_idx
  pub prev_log_idx : IsU64 c.prev_log_idx
  pub servers : All IsSrv c.servers

pub length-image : (c : ClusterConfig) → length (image c) ≡ 20 + length (flat (images c.servers))
unfolding image
length-image c = omega (
  arith,
  length-append (ulong_bytes c.log_idx)
      (ulong_bytes c.prev_log_idx ++ (int_bytes (length c.servers) ++ flat (images c.servers))),
  length-append (ulong_bytes c.prev_log_idx)
      (int_bytes (length c.servers) ++ flat (images c.servers)),
  length-append (int_bytes (length c.servers)) (flat (images c.servers)),
  length-ulong_bytes c.log_idx,
  length-ulong_bytes c.prev_log_idx,
  length-int_bytes (length c.servers),
)

abbrev pub cursors : List (List ℕ) → List Buffer
cursors [] = []
cursors (xs ∷ xss) = cursor [] xs ∷ cursors xss

serialize_servers-cursors :
    (ss : List SrvConfig)
    → Fits (length (flat (images ss)))
    → serialize_servers ss ≡ ok (cursors (images ss))
unfolding serialize_servers
serialize_servers-cursors [] h = refl
serialize_servers-cursors (s ∷ ss) h = rw (
  Srv.serialize-image s (omega (arith, h, length-append (Srv.image s) (flat (images ss)))),
  serialize_servers-cursors ss (omega (arith, h, length-append (Srv.image s) (flat (images ss)))),
)

pub total_size-cursors : (xss : List (List ℕ)) → total_size (cursors xss) ≡ length (flat xss)
unfolding total_size size
total_size-cursors [] = refl
total_size-cursors (xs ∷ xss) = omega (arith, total_size-cursors xss, length-append xs (flat xss))

pub put_all-puts :
    (b : Buffer) (xss : List (List ℕ)) (k : Buffer → Result Buffer)
    → (put_all b (cursors xss) >>= k) ≡ puts b xss k
unfolding put_all put_buffer data_of
put_all-puts b [] k = refl
put_all-puts b (xs ∷ xss) k =
    bind_tail (put_bytes b xs) (λ b'. put_all b' (cursors xss)) (λ b'. puts b' xss k) k
      (λ b'. put_all-puts b' xss k)

pub serialize-image :
    (c : ClusterConfig)
    → length c.servers < 2 ^ 31
    → Fits (length (image c))
    → serialize c ≡ ok (cursor [] (image c))
unfolding serialize image put_ulong put_int
serialize-image c few h =
    rw
      (
        serialize_servers-cursors c.servers (omega (arith, h, length-image c)),
        total_size-cursors (images c.servers),
        count,
      )
      (joined
        ∙ alloc-puts n (header ++ images c.servers) (omega (arith, h, length-image c))
            (length-image c))
  where
    count : length c.servers % 2 ^ 32 ≡ length c.servers
    count = omega (arith, few)

    n : ℕ
    n = 20 + length (flat (images c.servers))

    header : List (List ℕ)
    header = ulong_bytes c.log_idx ∷ ulong_bytes c.prev_log_idx ∷ int_bytes (length c.servers) ∷ []

    done : Buffer → Result Buffer
    done b = ok (set_pos b 0)

    joined :
        (alloc n >>= λ b. puts b header (λ b'. put_all b' (cursors (images c.servers)) >>= done))
        ≡ (alloc n >>= λ b. puts b (header ++ images c.servers) done)
    joined = λ i. alloc n >>= λ b. puts b header (λ b'. put_all-puts b' (images c.servers) done i)

deserialize_servers-images :
    (ss : List SrvConfig) (done rest : List ℕ)
    → All IsSrv ss
    → Fits (length done + length (flat (images ss) ++ rest))
    → deserialize_servers (length ss) (cursor done (flat (images ss) ++ rest))
      ≡ ok (ss, cursor (done ++ flat (images ss)) rest)
unfolding deserialize_servers
deserialize_servers-images [] done rest v h =
    ap (λ d. ok ([], cursor d rest)) (sym (append-nil done))
deserialize_servers-images (s ∷ ss) done rest (vs, v) h =
    rw
      (
        append_assoc (Srv.image s) (flat (images ss)) rest,
        Srv.deserialize-image done s (flat (images ss) ++ rest) vs fits,
        deserialize_servers-images ss (done ++ Srv.image s) rest v
            (Fits-next done (Srv.image s) (flat (images ss) ++ rest) fits),
      )
      (ap (λ d. ok (s ∷ ss, cursor d rest)) (append_assoc done (Srv.image s) (flat (images ss))))
  where
    fits : Fits (length done + length (Srv.image s ++ (flat (images ss) ++ rest)))
    fits = rw (← append_assoc (Srv.image s) (flat (images ss)) rest) h

-- The reading of a configuration's bytes, whatever follows them.
pub deserialize-image :
    (done : List ℕ) (c : ClusterConfig) (rest : List ℕ)
    → IsConfig c
    → length c.servers < 2 ^ 31
    → Fits (length done + length (image c ++ rest))
    → deserialize (cursor done (image c ++ rest)) ≡ ok (c, cursor (done ++ image c) rest)
unfolding deserialize image
deserialize-image done c rest v few h =
    rw
      (
        parts,
        get_ulong-cursor done (i2 ++ (i3 ++ (i4 ++ rest))) c.log_idx v.log_idx f1,
        get_ulong-cursor (done ++ i1) (i3 ++ (i4 ++ rest)) c.prev_log_idx v.prev_log_idx f2,
        get_int-cursor (done ++ i1 ++ i2) (i4 ++ rest) (length c.servers) (omega (arith, few)) f3,
        lt→ltb _ _ few,
        deserialize_servers-images c.servers (done ++ i1 ++ i2 ++ i3) rest v.servers
            (Fits-next (done ++ i1 ++ i2) i3 (i4 ++ rest) f3),
      )
      (ap (λ d. ok (c, cursor d rest)) (rw (append_assoc, append_assoc, append_assoc)))
  where
    i1 : List ℕ
    i1 = ulong_bytes c.log_idx

    i2 : List ℕ
    i2 = ulong_bytes c.prev_log_idx

    i3 : List ℕ
    i3 = int_bytes (length c.servers)

    i4 : List ℕ
    i4 = flat (images c.servers)

    parts : (i1 ++ (i2 ++ (i3 ++ i4))) ++ rest ≡ i1 ++ (i2 ++ (i3 ++ (i4 ++ rest)))
    parts = rw (append_assoc, append_assoc, append_assoc)

    f1 : Fits (length done + length (i1 ++ (i2 ++ (i3 ++ (i4 ++ rest)))))
    f1 = rw (← parts) h

    f2 : Fits (length (done ++ i1) + length (i2 ++ (i3 ++ (i4 ++ rest))))
    f2 = Fits-next done i1 (i2 ++ (i3 ++ (i4 ++ rest))) f1

    f3 : Fits (length (done ++ i1 ++ i2) + length (i3 ++ (i4 ++ rest)))
    f3 = Fits-next (done ++ i1) i2 (i3 ++ (i4 ++ rest)) f2

-- A configuration that is written and read back is the configuration, servers in order.
pub config_deserialize-serialize :
    (c : ClusterConfig)
    → IsConfig c
    → length c.servers < 2 ^ 31
    → Fits (length (image c))
    → (serialize c >>= deserialize) ≡ ok (c, cursor (image c) [])
config_deserialize-serialize c v few h = rw (serialize-image c few h) (
    ap (λ bs. deserialize (cursor [] bs)) (sym (append-nil (image c)))
    ∙ deserialize-image [] c [] v few (rw (append-nil (image c)) (omega (arith, h))))
