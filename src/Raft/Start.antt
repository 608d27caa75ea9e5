-- ===== src/Raft/Start.antt =====
-- raft_server.hxx: the constructor and the destructor of raft_server. The random number generator and
-- the threads are outside; the destructor waits until the committing thread has stopped.
pub mod Changes
use cornerstone.Common.{
  ℕ, zero, suc, ◌-◌, List, [], ◌∷◌, true, false, Option, none, some, ltb, ◌==◌, if◌then◌else◌,
  add64, minus_one,
}
use cornerstone.Codec.Srv.{SrvConfig}
use cornerstone.Codec.Config.{ClusterConfig}
use cornerstone.Log
use cornerstone.Log.{Log}
use cornerstone.Raft.Types.{SrvRole, SrvState, RaftParams}
use cornerstone.Raft.Peers.{Peers, new_peer, insert_peer, peer_ids}
use cornerstone.Raft.Server.{
  Server, Host, M, Outcome, ◌>>=◌, ◌>>◌, pure, gets, modify, emit, when, lift, deref, for_each,
  cancel_election, cancel_hb, notify_commit,
}
use cornerstone.Raft.Membership.{is_conf}
use cornerstone.Raft.Timers.{restart_election_timer}

-- What the constructor reads from its context: the saved state may be the null pointer.
pub record Context : Type 0 where
  pub server_id : ℕ
  pub saved_state : Option SrvState
  pub log_store : Log
  pub saved_config : ClusterConfig
  pub params : RaftParams
  pub host : Host

-- A server without a saved state has voted for nobody.
unfoldable pub initial_state : Option SrvState → SrvState
initial_state none = record { term = 0; commit_idx = 0; voted_for = minus_one }
initial_state (some st) = st

-- The fields as the constructor sets them first.
unfoldable pub initial : Context → Server
initial ctx = record {
  leader_id = minus_one;
  id = ctx.server_id;
  votes_responded = 0;
  votes_granted = 0;
  quick_commit_idx = 0;
  election_completed = true;
  config_changing = false;
  catching_up = false;
  steps_to_down = 0;
  snp_in_progress = false;
  params = ctx.params;
  election_task = false;
  peers = [];
  rpc_clients = [];
  role = SrvRole.follower;
  state = initial_state ctx.saved_state;
  log = ctx.log_store;
  config = ctx.saved_config;
  srv_to_join = none;
  conf_to_add = none;
  host = ctx.host;
  trace = [];
}

-- One round of the loop over the entries that are not committed; it ends at a configuration.
unfoldable pub config_round : ℕ → M (Unit {0}) → M (Unit {0})
config_round i next = do
  log ← gets (λ s. s.log)
  found ← lift (Log.entry_at log i)
  e ← deref found
  if is_conf e.val_type then modify (λ s. record s { config_changing = true }) else next

-- The loop from the index `i` on, with the rounds that are left.
unfoldable pub find_config : ℕ → ℕ → M (Unit {0})
find_config zero i = pure tt
find_config (suc rounds) i = config_round i (find_config rounds (add64 i 1))

-- The larger of two ulong.
unfoldable pub max_ulong : ℕ → ℕ → ℕ
max_ulong a b = if ltb a b then b else a

-- The peers are the servers of the configuration but for this one.
unfoldable pub initial_peers : ℕ → RaftParams → List SrvConfig → Peers → Peers
initial_peers id params [] peers = peers
initial_peers id params (c ∷ cs) peers =
    initial_peers id params cs
      (if c.id == id then peers else insert_peer c.id (new_peer c params) peers)

-- The body of the constructor.
unfoldable pub construct : M (Unit {0})
construct = do
  s ← gets (λ s. s)
  let i = max_ulong (add64 s.state.commit_idx 1) (Log.start_index s.log)
  find_config (Log.next_slot s.log - i) i
  modify (λ s. record s {
    peers = initial_peers s.id s.params s.config.servers [];
    quick_commit_idx = s.state.commit_idx;
  })
  restart_election_timer

unfoldable pub raft_server : Context → Outcome (Unit {0})
raft_server ctx = construct (initial ctx)

-- The destructor; the heartbeat task of a peer is never the null pointer.
unfoldable pub destroy : M (Unit {0})
destroy = do
  emit notify_commit
  s ← gets (λ s. s)
  when s.election_task (emit cancel_election)
  for_each (peer_ids s.peers) (λ id. emit (cancel_hb id))
