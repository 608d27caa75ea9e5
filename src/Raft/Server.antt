-- ===== src/Raft/Server.antt =====
-- The state of raft_server, what it does to the outside, and the shape of its methods.
-- A method takes the state and returns its result with the new state; or the process has ended by
-- `::exit`, or an exception leaves the method. Locks are not modelled: a method that holds `lock_`
-- is one step. The log lines are left out.
use cornerstone.Common.{ℕ, List, [], ◌∷◌, Bool, true, false, Option, none, some}
use cornerstone.Buffer
use cornerstone.Buffer.{Error}
use cornerstone.Codec.Srv.{SrvConfig}
use cornerstone.Codec.Config.{ClusterConfig}
use cornerstone.Codec.Snapshot.{Snapshot}
use cornerstone.Log.{Log}
use cornerstone.Raft.Types.{SrvRole, SrvState, ReqMsg, RaftParams}
use cornerstone.Raft.Peers.{Peer, Peers, find_peer, update_peer}

-- The handler of a request's response: `resp_handler_` or `ex_resp_handler_`.
pub data Handler : Type 0 where
  peer_handler ext_handler : Handler

-- Calls of the state machine, the state manager, the scheduler and the rpc clients.
pub data Effect : Type 0 where
  send : ℕ → Handler → ReqMsg → Effect
  save_state : SrvState → Effect
  save_config : ClusterConfig → Effect
  system_exit : ℕ → Effect
  sm_commit sm_pre_commit sm_rollback : ℕ → List ℕ → Effect
  sm_save_snapshot_data : Snapshot → ℕ → List ℕ → Effect
  sm_apply_snapshot sm_create_snapshot : Snapshot → Effect
  schedule_election : ℕ → Effect
  cancel_election : Effect
  schedule_hb : ℕ → ℕ → Effect
  cancel_hb : ℕ → Effect
  schedule_retry : ℕ → ReqMsg → ℕ → Effect
  notify_commit : Effect

-- What the calls answer that the library does not implement: the state machine, the random timeout,
-- and whether the log store can open its backup files. `pack` and `apply_pack` are the log store's.
-- `read_snapshot_data` returns the int32 result and the block.
pub record Host : Type 0 where
  pub last_snapshot : Option Snapshot
  pub apply_snapshot : Snapshot → Bool
  pub read_snapshot_data : Snapshot → ℕ → ℕ → ℕ × List ℕ
  pub rand_timeout : ℕ
  pub compact_files : Bool
  pub pack : Log → ℕ → ℕ → Buffer.Result (List ℕ)
  pub apply_pack : Log → ℕ → List ℕ → Buffer.Result Log

-- `trace` holds the effects, the latest first. `rpc_clients` has false for the null pointer.
pub record Server : Type 0 where
  pub leader_id : ℕ
  pub id : ℕ
  pub votes_responded : ℕ
  pub votes_granted : ℕ
  pub quick_commit_idx : ℕ
  pub election_completed : Bool
  pub config_changing : Bool
  pub catching_up : Bool
  pub steps_to_down : ℕ
  pub snp_in_progress : Bool
  pub params : RaftParams
  pub election_task : Bool
  pub peers : Peers
  pub rpc_clients : List (ℕ × Bool)
  pub role : SrvRole
  pub state : SrvState
  pub log : Log
  pub config : ClusterConfig
  pub srv_to_join : Option Peer
  pub conf_to_add : Option SrvConfig
  pub host : Host
  pub trace : List Effect

pub data Outcome (A : Type 0) : Type 0 where
  done : A → Server → Outcome A
  exited : ℕ → Server → Outcome A
  thrown : Error → Server → Outcome A

abbrev pub M : Type 0 → Type 0
M A = Server → Outcome A

abbrev pub continue : {A B : Type 0} → Outcome A → (A → M B) → Outcome B
continue (done a s) f = f a s
continue (exited c s) f = exited c s
continue (thrown e s) f = thrown e s

infixl 5 ◌>>=◌ ◌>>◌
abbrev pub ◌>>=◌ : {A B : Type 0} → M A → (A → M B) → M B
◌>>=◌ m f s = continue (m s) f

abbrev pub ◌>>◌ : {B : Type 0} → M (Unit {0}) → M B → M B
m >> k = m >>= λ _. k

abbrev pub pure : {A : Type 0} → A → M A
pure a s = done a s

abbrev pub gets : {A : Type 0} → (Server → A) → M A
gets f s = done (f s) s

abbrev pub modify : (Server → Server) → M (Unit {0})
modify f s = done tt (f s)

abbrev pub emit : Effect → M (Unit {0})
emit e s = done tt (record s { trace = e ∷ s.trace })

abbrev pub when : Bool → M (Unit {0}) → M (Unit {0})
when true m = m
when false m = pure tt

-- `state_mgr_.system_exit(code)` and then `::exit(status)`.
abbrev pub halt : {A : Type 0} → ℕ → ℕ → M A
halt code status s = exited status (record s { trace = system_exit code ∷ s.trace })

abbrev pub lift : {A : Type 0} → Buffer.Result A → M A
lift (Buffer.ok a) s = done a s
lift (Buffer.err e) s = thrown e s

-- A null pointer that is dereferenced ends the process.
abbrev pub deref : {A : Type 0} → Option A → M A
deref (some a) s = done a s
deref none s = exited 139 s

abbrev pub on_some : {A B : Type 0} → Option A → M B → (A → M B) → M B
on_some none m f = m
on_some (some a) m f = f a

abbrev pub for_each : List ℕ → (ℕ → M (Unit {0})) → M (Unit {0})
for_each [] f = pure tt
for_each (x ∷ xs) f = f x >>= λ _. for_each xs f

-- A reference to a peer: one of the table, or `srv_to_join_`.
pub data PeerRef : Type 0 where
  member : ℕ → PeerRef
  joining : PeerRef

unfoldable pub map_option : (Peer → Peer) → Option Peer → Option Peer
map_option f none = none
map_option f (some p) = some (f p)

unfoldable pub get_peer : PeerRef → Server → Option Peer
get_peer (member id) s = find_peer id s.peers
get_peer joining s = s.srv_to_join

unfoldable pub set_peer : PeerRef → (Peer → Peer) → Server → Server
set_peer (member id) f s = record s { peers = update_peer id f s.peers }
set_peer joining f s = record s { srv_to_join = map_option f s.srv_to_join }

abbrev pub modify_peer : PeerRef → (Peer → Peer) → M (Unit {0})
modify_peer r f = modify (set_peer r f)

abbrev pub is_leader : SrvRole → Bool
is_leader SrvRole.leader = true
is_leader _ = false

abbrev pub is_candidate : SrvRole → Bool
is_candidate SrvRole.candidate = true
is_candidate _ = false

abbrev pub is_follower : SrvRole → Bool
is_follower SrvRole.follower = true
is_follower _ = false
