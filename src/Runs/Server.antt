-- ===== src/Runs/Server.antt =====
-- A cluster of three servers, of which this is server 1, and what the theorems say of it.
use cornerstone.Common.{
  ◌*◌, ◌^◌, ◌++◌, ℕ, ◌≡◌, refl, arith, [], ◌∷◌, true, false, none, some, ◌==◌, if◌then◌else◌,
  minus_one, length, ◌+◌, ◌<◌,
}
use cornerstone.Buffer
use cornerstone.Codec.Entry.{LogEntry, app_log, conf}
use cornerstone.Codec.Srv.{SrvConfig, IsSrv}
use cornerstone.Log
use cornerstone.Log.{next_slot, last_entry, last_of}
use cornerstone.Raft.Types.{
  RespMsg, SrvRole, MsgType, ReqMsg, default_params, set_voted_for, accept, resp_msg,
}
use cornerstone.Raft.Peers.{Peer, new_peer}
use cornerstone.Raft.Server.{is_leader, Host, Server}
use cornerstone.Raft.Election.{handle_vote_req, grants, log_okay, is_majority}
use cornerstone.Raft.Run.{final, start, next, election_timeout, handle_event, Regular}
use cornerstone.Raft.State.Keeps.{Advances}
use cornerstone.Raft.State.Runs.{Run-Advances}
use cornerstone.Raft.Append.{store_entries, handle_append_entries}
use cornerstone.Raft.Replication.{entries_to_send}
use cornerstone.Raft.Slices.{entries_to_send-slice}
use cornerstone.Codec.Config.{ClusterConfig, IsConfig, get_server, deserialize, image}
use cornerstone.Codec.Srv
use cornerstone.Buffer.Laws.{Fits}
use cornerstone.Buffer.{int_bytes, ulong_bytes}
use cornerstone.Raft.Membership.{front}
use cornerstone.Raft.Dispatch.{handle_peer_resp}
use cornerstone.Raft.StaleVotes.{handle_peer_resp-stale_vote}
use cornerstone.Raft.Joining.{config_without, servers_without, rm_srv_from_cluster}
use cornerstone.Raft.Removal.{rm_srv_from_cluster-proposes}
use cornerstone.Raft.Stale.{handle_append_entries-stale}
use cornerstone.Raft.Responses.{median_matched, matched_indexes}
use cornerstone.Raft.Loops.{Returns, log_of}
use cornerstone.Raft.Stored.{merge, store_entries-merge}
use cornerstone.Raft.Medians.{count_ge, median_matched-majority}
use cornerstone.Raft.Votes.{accepted, second_vote, handle_vote_req-compacted}

abbrev pub server_config : ℕ → SrvConfig
server_config id = record { id = id; endpoint = 97 ∷ [] }

abbrev host : Host
host = record {
  last_snapshot = none;
  apply_snapshot = λ s. true;
  read_snapshot_data = λ s offset n. (0, []);
  rand_timeout = 200;
  compact_files = true;
  pack = λ log first n. Buffer.ok [];
  apply_pack = λ log first bytes. Buffer.ok log;
}

abbrev entry : ℕ → LogEntry
entry term = record { term = term; val_type = app_log; buf = 1 ∷ [] }

abbrev pub node : Server
node = record {
  leader_id = 2;
  id = 1;
  votes_responded = 0;
  votes_granted = 0;
  quick_commit_idx = 1;
  election_completed = false;
  config_changing = false;
  catching_up = false;
  steps_to_down = 0;
  snp_in_progress = false;
  params = default_params;
  election_task = true;
  peers =
      (2, new_peer (server_config 2) default_params)
      ∷ (3, new_peer (server_config 3) default_params)
      ∷ [];
  rpc_clients = [];
  role = SrvRole.follower;
  state = record { term = 2; commit_idx = 1; voted_for = minus_one };
  log = record { start = 1; entries = entry 1 ∷ entry 2 ∷ [] };
  config = record {
    log_idx = 1;
    prev_log_idx = 0;
    servers = server_config 1 ∷ server_config 2 ∷ server_config 3 ∷ [];
  };
  srv_to_join = none;
  conf_to_add = none;
  host = host;
  trace = [];
}

abbrev vote_req : ℕ → ReqMsg
vote_req src = record {
  term = 2;
  type = MsgType.request_vote_request;
  src = src;
  dst = 1;
  last_log_term = 2;
  last_log_idx = 2;
  commit_idx = 1;
  log_entries = [];
}

vote_for_3 : accepted (handle_vote_req (vote_req 3) node) ≡ true
unfolding handle_vote_req accept resp_msg grants log_okay next_slot last_entry last_of
vote_for_3 = refl

again : accepted (handle_vote_req (vote_req 3) (final (handle_vote_req (vote_req 3) node))) ≡ true
unfolding handle_vote_req accept resp_msg grants log_okay next_slot last_entry last_of set_voted_for
again = refl

second_vote_example : (vote_req 3).src ≡ (vote_req 3).src
second_vote_example =
    second_vote node (final (handle_vote_req (vote_req 3) node)) (vote_req 3) (vote_req 3)
      vote_for_3 (omega arith) start refl again

is_majority_2 : is_majority 2 node ≡ true
unfolding is_majority
is_majority_2 = refl

no_overflow : Regular election_timeout node
unfolding Regular
no_overflow = omega arith

Run-Advances_example : Advances node.state (final (handle_event election_timeout node)).state
Run-Advances_example = Run-Advances node _ (next node election_timeout start no_overflow)

store_entries-merge_example :
    Returns
      (store_entries 2 (entry 3 ∷ entry 3 ∷ []) node)
      (λ _ u. u.log ≡ log_of 1 ((entry 1 ∷ []) ++ merge (entry 2 ∷ []) (entry 3 ∷ entry 3 ∷ [])))
store_entries-merge_example =
    store_entries-merge node 1 (entry 1 ∷ []) (entry 2 ∷ []) (entry 3 ∷ entry 3 ∷ []) refl
      (omega arith)

median_matched-majority_example :
    length node.peers + 1 < 2 * count_ge (median_matched node) (matched_indexes node)
median_matched-majority_example = median_matched-majority node

abbrev quiet : Peer
quiet = record {
  config = server_config 2;
  current_hb_interval = 75;
  hb_interval = 75;
  rpc_backoff = 25;
  max_hb = 113;
  next_log_idx = 0;
  matched_idx = 0;
  busy = false;
  pending_commit = false;
  hb_enabled = true;
  snp_sync_ctx = none;
}

abbrev remove_req : ReqMsg
remove_req = record {
  term = 0;
  type = MsgType.remove_server_request;
  src = 0;
  dst = 1;
  last_log_term = 0;
  last_log_idx = 0;
  commit_idx = 0;
  log_entries = record { term = 0; val_type = app_log; buf = 2 ∷ 0 ∷ 0 ∷ 0 ∷ [] } ∷ [];
}

abbrev stale_req : ReqMsg
stale_req = record {
  term = 1;
  type = MsgType.append_entries_request;
  src = 3;
  dst = 1;
  last_log_term = 1;
  last_log_idx = 1;
  commit_idx = 2;
  log_entries = entry 1 ∷ [];
}

handle_append_entries-stale_example :
    (accepted (handle_append_entries stale_req node) ≡ false)
    × (((final (handle_append_entries stale_req node)).log ≡ node.log)
        × ((final (handle_append_entries stale_req node)).state ≡ node.state))
handle_append_entries-stale_example = handle_append_entries-stale node stale_req (omega arith)

two_entries : next_slot node.log < 2 ^ 64
unfolding next_slot
two_entries = omega arith

entries_to_send-slice_example : entries_to_send node.log 1 100 ≡ Buffer.ok (entry 2 ∷ [])
entries_to_send-slice_example =
    entries_to_send-slice node.log 1 100 (omega arith) two_entries (omega arith) (omega arith)

-- A request to join that the leader sends again.
abbrev join_req : ReqMsg
join_req = record remove_req { type = MsgType.join_cluster_request; log_entries = [] }

abbrev inviting : Server
inviting = record node { role = SrvRole.leader; srv_to_join = some quiet }

server_config-IsSrv : (id : ℕ) → id < 2 ^ 32 → IsSrv (server_config id)
server_config-IsSrv id h = record { id = h; text = (omega arith, tt); nonempty = omega arith }

without_2-IsConfig : IsConfig (config_without node 2)
unfolding config_without servers_without next_slot
without_2-IsConfig = record {
  log_idx = omega arith;
  prev_log_idx = omega arith;
  servers = (server_config-IsSrv 1 (omega arith), (server_config-IsSrv 3 (omega arith), tt));
}

few_left : length (config_without node 2).servers < 2 ^ 31
unfolding config_without servers_without
few_left = omega arith

without_2-Fits : Fits (length (image (config_without node 2)))
unfolding image cornerstone.Codec.Srv.image int_bytes ulong_bytes config_without servers_without
    next_slot
without_2-Fits = omega arith

rm_srv_from_cluster-proposes_example :
    (e : LogEntry) × (c : ClusterConfig) × (rest : Buffer.Buffer) × ((final
        (rm_srv_from_cluster 2 node)).log
      ≡ log_of 1 (node.log.entries ++ (e ∷ [])))
    × (e.term ≡ 2)
    × (e.val_type ≡ conf)
    × (deserialize (front e.buf) ≡ Buffer.ok (c, rest))
    × (c.log_idx ≡ next_slot node.log)
    × (c.prev_log_idx ≡ 1)
    × ((k : ℕ) → get_server c k ≡ (if k == 2 then none else get_server node.config k))
rm_srv_from_cluster-proposes_example =
    rm_srv_from_cluster-proposes node 2 without_2-IsConfig few_left without_2-Fits

-- A follower for which a vote of an earlier term arrives.
abbrev follower : Server
follower = record node { votes_granted = 1; votes_responded = 1 }

abbrev old_vote : RespMsg
old_vote = record {
  term = 1;
  type = MsgType.request_vote_response;
  src = 2;
  dst = 1;
  next_idx = 3;
  accepted = true;
}

handle_peer_resp-stale_vote_example :
    is_leader (final (handle_peer_resp (some old_vote) follower)).role ≡ true
unfolding is_majority
handle_peer_resp-stale_vote_example =
    handle_peer_resp-stale_vote follower old_vote refl (omega arith) refl refl is_majority_2

-- A candidate whose last entry is of term 1, where the compacted log had one of term 2.
abbrev stale_candidate : ReqMsg
stale_candidate = record (vote_req 3) { last_log_term = 1; last_log_idx = 1 }

handle_vote_req-compacted_example :
    accepted
      (handle_vote_req stale_candidate (record node { log = record { start = 3; entries = [] } }))
    ≡ true
unfolding Log.compact next_slot
handle_vote_req-compacted_example =
    handle_vote_req-compacted node stale_candidate (record { start = 3; entries = [] }) 2
      (omega arith) refl refl refl (omega arith)
