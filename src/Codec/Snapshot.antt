-- ===== src/Codec/Snapshot.antt =====
-- snapshot.hxx, snapshot.cxx, snapshot_sync_req.hxx, snapshot_sync_req.cxx, snapshot_sync_ctx.hxx:
-- a snapshot's description, and a block of its data on the way to a peer.
use cornerstone.Common.{
  ℕ, suc, ◌+◌, ◌*◌, ◌<◌, ◌^◌, ◌≡◌, refl, ap, ◌∙◌, List, [], ◌∷◌, ◌++◌, length, arith, IsU64, IsByte,
  Bool, true, false, append_assoc, append-nil, length-append, ◌==◌,
}
use cornerstone.Buffer.{
  Buffer, Result, ok, ◌>>=◌, alloc, set_pos, put_ulong, put_byte, put_buffer, get_ulong, get_byte,
  ulong_bytes, data_of, size, sz_ulong, sz_byte,
}
use cornerstone.Buffer.Laws.{
  cursor, Fits, Fits-next, alloc-puts, get_ulong-cursor, get_byte-cursor, length-ulong_bytes,
  data_of-cursor,
}
use cornerstone.Codec.Config
use cornerstone.Codec.Config.{ClusterConfig, IsConfig}

pub record Snapshot : Type 0 where
  pub last_log_idx : ℕ
  pub last_log_term : ℕ
  pub snp_size : ℕ
  pub last_config : ClusterConfig

-- A block of the snapshot's data; `data_bytes` is the buffer from its position on.
pub record SnapshotSyncReq : Type 0 where
  pub snp : Snapshot
  pub offset : ℕ
  pub data_bytes : List ℕ
  pub done : Bool

pub record SnapshotSyncCtx : Type 0 where
  pub snp : Snapshot
  pub offset : ℕ

unfoldable pub deserialize : Buffer → Result (Snapshot × Buffer)
deserialize b = do
  (last_log_idx, b) ← get_ulong b
  (last_log_term, b) ← get_ulong b
  (sz, b) ← get_ulong b
  (conf, b) ← Config.deserialize b
  ok (
    record {
      last_log_idx = last_log_idx;
      last_log_term = last_log_term;
      snp_size = sz;
      last_config = conf;
    },
    b,
  )

unfoldable pub serialize : Snapshot → Result Buffer
serialize s = do
  conf_buf ← Config.serialize s.last_config
  b ← alloc (size conf_buf + sz_ulong * 3)
  b ← put_ulong b s.last_log_idx
  b ← put_ulong b s.last_log_term
  b ← put_ulong b s.snp_size
  b ← put_buffer b conf_buf
  ok (set_pos b 0)

-- The rest of the buffer is copied into a new one, by `memcpy` or, where nothing is left, not at all.
unfoldable pub deserialize_req : Buffer → Result SnapshotSyncReq
deserialize_req b = do
  (snp, b) ← deserialize b
  (offset, b) ← get_ulong b
  (flag, b) ← get_byte b
  ok (record { snp = snp; offset = offset; data_bytes = data_of b; done = flag == 1 })

abbrev pub done_byte : Bool → ℕ
done_byte true = 1
done_byte false = 0

unfoldable pub serialize_req : SnapshotSyncReq → Result Buffer
serialize_req r = do
  snp_buf ← serialize r.snp
  b ← alloc (size snp_buf + sz_ulong + sz_byte + length r.data_bytes)
  b ← put_buffer b snp_buf
  b ← put_ulong b r.offset
  b ← put_byte b (done_byte r.done)
  b ← put_buffer b (record { bytes = r.data_bytes; pos = 0 })
  ok (set_pos b 0)

unfoldable pub image : Snapshot → List ℕ
image s =
    ulong_bytes s.last_log_idx
    ++ (ulong_bytes s.last_log_term ++ (ulong_bytes s.snp_size ++ Config.image s.last_config))

unfoldable pub image_req : SnapshotSyncReq → List ℕ
image_req r = image r.snp ++ (ulong_bytes r.offset ++ (done_byte r.done ∷ r.data_bytes))

pub record IsSnapshot (s : Snapshot) : Type 0 where
  pub last_log_idx : IsU64 s.last_log_idx
  pub last_log_term : IsU64 s.last_log_term
  pub snp_size : IsU64 s.snp_size
  pub last_config : IsConfig s.last_config
  pub few : length s.last_config.servers < 2 ^ 31

length-image : (s : Snapshot) → length (image s) ≡ length (Config.image s.last_config) + 24
unfolding image
length-image s = omega (
  arith,
  length-append (ulong_bytes s.last_log_idx)
      (ulong_bytes s.last_log_term ++ (ulong_bytes s.snp_size ++ Config.image s.last_config)),
  length-append (ulong_bytes s.last_log_term)
      (ulong_bytes s.snp_size ++ Config.image s.last_config),
  length-append (ulong_bytes s.snp_size) (Config.image s.last_config),
  length-ulong_bytes s.last_log_idx,
  length-ulong_bytes s.last_log_term,
  length-ulong_bytes s.snp_size,
)

pub serialize-image :
    (s : Snapshot) → IsSnapshot s → Fits (length (image s)) → serialize s ≡ ok (cursor [] (image s))
unfolding serialize image put_ulong put_buffer size data_of
serialize-image s v h =
    rw (Config.serialize-image s.last_config v.few (omega (arith, h, length-image s))) (
      alloc-puts (length (Config.image s.last_config) + 24)
        (ulong_bytes s.last_log_idx
          ∷ ulong_bytes s.last_log_term
          ∷ ulong_bytes s.snp_size
          ∷ Config.image s.last_config
          ∷ [])
        (omega (arith, h, length-image s)) (rw append-nil (length-image s))
      ∙ rw append-nil)

pub deserialize-image :
    (done : List ℕ) (s : Snapshot) (rest : List ℕ)
    → IsSnapshot s
    → Fits (length done + length (image s ++ rest))
    → deserialize (cursor done (image s ++ rest)) ≡ ok (s, cursor (done ++ image s) rest)
unfolding deserialize image
deserialize-image done s rest v h =
    rw
      (
        parts,
        get_ulong-cursor done (i2 ++ (i3 ++ (i4 ++ rest))) s.last_log_idx v.last_log_idx f1,
        get_ulong-cursor (done ++ i1) (i3 ++ (i4 ++ rest)) s.last_log_term v.last_log_term f2,
        get_ulong-cursor (done ++ i1 ++ i2) (i4 ++ rest) s.snp_size v.snp_size f3,
        Config.deserialize-image (done ++ i1 ++ i2 ++ i3) s.last_config rest v.last_config v.few
            (Fits-next (done ++ i1 ++ i2) i3 (i4 ++ rest) f3),
      )
      (ap (λ d. ok (s, cursor d rest)) (rw (append_assoc, append_assoc, append_assoc)))
  where
    i1 : List ℕ
    i1 = ulong_bytes s.last_log_idx

    i2 : List ℕ
    i2 = ulong_bytes s.last_log_term

    i3 : List ℕ
    i3 = ulong_bytes s.snp_size

    i4 : List ℕ
    i4 = Config.image s.last_config

    parts : (i1 ++ (i2 ++ (i3 ++ i4))) ++ rest ≡ i1 ++ (i2 ++ (i3 ++ (i4 ++ rest)))
    parts = rw (append_assoc, append_assoc, append_assoc)

    f1 : Fits (length done + length (i1 ++ (i2 ++ (i3 ++ (i4 ++ rest)))))
    f1 = rw (← parts) h

    f2 : Fits (length (done ++ i1) + length (i2 ++ (i3 ++ (i4 ++ rest))))
    f2 = Fits-next done i1 (i2 ++ (i3 ++ (i4 ++ rest))) f1

    f3 : Fits (length (done ++ i1 ++ i2) + length (i3 ++ (i4 ++ rest)))
    f3 = Fits-next (done ++ i1) i2 (i3 ++ (i4 ++ rest)) f2

length-image_req :
    (r : SnapshotSyncReq)
    → length (image_req r) ≡ length (image r.snp) + 8 + 1 + length r.data_bytes
unfolding image_req
length-image_req r = omega (
  arith,
  length-append (image r.snp) (ulong_bytes r.offset ++ (done_byte r.done ∷ r.data_bytes)),
  length-append (ulong_bytes r.offset) (done_byte r.done ∷ r.data_bytes),
  length-ulong_bytes r.offset,
)

serialize_req-image_req :
    (r : SnapshotSyncReq)
    → IsSnapshot r.snp
    → Fits (length (image_req r))
    → serialize_req r ≡ ok (cursor [] (image_req r))
unfolding serialize_req image_req put_ulong put_buffer put_byte size data_of
serialize_req-image_req r v h =
    rw (serialize-image r.snp v (omega (arith, h, length-image_req r))) (
      alloc-puts (length (image r.snp) + 8 + 1 + length r.data_bytes)
        (image r.snp ∷ ulong_bytes r.offset ∷ (done_byte r.done ∷ []) ∷ r.data_bytes ∷ [])
        (omega (arith, h, length-image_req r)) (rw append-nil (length-image_req r))
      ∙ rw append-nil)

done_byte-IsByte : (d : Bool) → IsByte (done_byte d)
done_byte-IsByte true = omega arith
done_byte-IsByte false = omega arith

done_byte_lem : (d : Bool) → (done_byte d == 1) ≡ d
done_byte_lem true = refl
done_byte_lem false = refl

-- A block of a snapshot that is written and read back is the block: the snapshot's description with
-- its configuration, the offset, the flag for the last block, and the data.
pub deserialize_req-serialize_req :
    (r : SnapshotSyncReq)
    → IsSnapshot r.snp
    → IsU64 r.offset
    → Fits (length (image_req r))
    → (serialize_req r >>= deserialize_req) ≡ ok r
unfolding deserialize_req image_req
deserialize_req-serialize_req r v hv h = rw (
  serialize_req-image_req r v h,
  deserialize-image [] r.snp (ulong_bytes r.offset ++ (done_byte r.done ∷ r.data_bytes)) v f1,
  get_ulong-cursor (image r.snp) (done_byte r.done ∷ r.data_bytes) r.offset hv f2,
  get_byte-cursor (image r.snp ++ ulong_bytes r.offset) r.data_bytes (done_byte r.done)
      (done_byte-IsByte r.done) f3,
  data_of-cursor (image r.snp ++ ulong_bytes r.offset ++ (done_byte r.done ∷ [])) r.data_bytes,
  done_byte_lem r.done,
)
  where
    f1 :
        Fits
          (0 + length (image r.snp ++ (ulong_bytes r.offset ++ (done_byte r.done ∷ r.data_bytes))))
    f1 = omega (arith, h)

    f2 :
        Fits (
          length (image r.snp) + length (ulong_bytes r.offset ++ (done_byte r.done ∷ r.data_bytes)))
    f2 = Fits-next [] (image r.snp) (ulong_bytes r.offset ++ (done_byte r.done ∷ r.data_bytes)) f1

    f3 : Fits (length (image r.snp ++ ulong_bytes r.offset) + suc (length r.data_bytes))
    f3 = Fits-next (image r.snp) (ulong_bytes r.offset) (done_byte r.done ∷ r.data_bytes) f2
