-- ===== src/Runs/Codec.antt =====
-- Blocks of a snapshot that are written and read back, and writes into a buffer.
use cornerstone.Common.{◌≡◌, [], ◌∷◌, true, arith, length}
use cornerstone.Buffer.{Buffer, size, ulong_bytes, int_bytes, ok, ◌>>=◌}
use cornerstone.Buffer.Bounds.{IsWithin, Written, put_bytes-Written}
use cornerstone.Buffer.Laws.{Fits}
use cornerstone.Codec.Srv
use cornerstone.Codec.Srv.{SrvConfig, IsSrv}
use cornerstone.Codec.Config
use cornerstone.Codec.Config.{ClusterConfig, IsConfig}
use cornerstone.Codec.Snapshot.{
  image_req, image as snapshot_image, SnapshotSyncReq, serialize_req, deserialize_req,
  deserialize_req-serialize_req,
}

abbrev srv : SrvConfig
srv = record { id = 1; endpoint = 97 ∷ 58 ∷ 49 ∷ [] }

srv-IsSrv : IsSrv srv
srv-IsSrv = record {
  id = omega arith;
  text = (omega arith, (omega arith, (omega arith, tt)));
  nonempty = omega arith;
}

srv-Fits : Fits (length (Srv.image srv))
unfolding Srv.image int_bytes
srv-Fits = omega arith

abbrev config : ClusterConfig
config = record { log_idx = 5; prev_log_idx = 2; servers = srv ∷ [] }

config-IsConfig : IsConfig config
config-IsConfig = record {
  log_idx = omega arith;
  prev_log_idx = omega arith;
  servers = (srv-IsSrv, tt);
}

config-Fits : Fits (length (Config.image config))
unfolding Config.image Srv.image int_bytes ulong_bytes
config-Fits = omega arith

abbrev block : SnapshotSyncReq
block = record {
  snp = record { last_log_idx = 5; last_log_term = 3; snp_size = 2; last_config = config };
  offset = 0;
  data_bytes = 8 ∷ 9 ∷ [];
  done = true;
}

block-Fits : Fits (length (image_req block))
unfolding image_req snapshot_image Config.image Srv.image int_bytes ulong_bytes
block-Fits = omega arith

deserialize_req-serialize_req_example : (serialize_req block >>= deserialize_req) ≡ ok block
deserialize_req-serialize_req_example =
    deserialize_req-serialize_req block
      (record {
        last_log_idx = omega arith;
        last_log_term = omega arith;
        snp_size = omega arith;
        last_config = config-IsConfig;
        few = omega arith;
      })
      (omega arith) block-Fits

-- A block of four bytes of which one is written.
abbrev started : Buffer
started = record { bytes = 7 ∷ 0 ∷ 0 ∷ 0 ∷ []; pos = 1 }

started-IsWithin : IsWithin started
unfolding size
started-IsWithin = record { block = omega arith; pos = omega arith }

put_bytes-Written_example : Written started (1 ∷ 2 ∷ [])
put_bytes-Written_example = put_bytes-Written started (1 ∷ 2 ∷ []) started-IsWithin
