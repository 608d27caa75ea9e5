-- ===== src/Runs/Cluster.antt =====
-- The theorems on starting servers, their clients, heartbeats, commits and members at concrete values.
use cornerstone.Raft.Peers.{peer_ids}
use cornerstone.Common.{
  length, ◌-◌, ◌==◌, not, ◌&&◌, is_some, ◌≤◌, ℕ, ◌≡◌, ◌⊎◌, ◌+◌, refl, arith, inl, List, [], ◌∷◌,
  ◌++◌, map, true, false, some,
}
use cornerstone.Codec.Entry.{app_log, conf}
use cornerstone.Task
use cornerstone.Task.{Task, expired, ran, timer_stopped}
use cornerstone.Task.Runs.{cancel_task-Silent}
use cornerstone.Raft.Types.{SrvRole, default_params}
use cornerstone.Raft.Server.{Server, done, schedule_hb}
use cornerstone.Raft.Timers.{update_term}
use cornerstone.Raft.Run.{final}
use cornerstone.Raft.Loops.{Returns, log_of}
use cornerstone.Raft.Heartbeats.{hb_task, update_term-Silent}
use cornerstone.Raft.Client.{Submitted, known, append_entries}
use cornerstone.Raft.Client.Appends.{append_entries-zero_terms}
use cornerstone.Raft.Start.{Context, initial_state, raft_server}
use cornerstone.Raft.Start.Changes.{has_config, uncommitted, raft_server-has_config}
use cornerstone.Log
use cornerstone.Raft.Types
use cornerstone.Raft.Snapshots
use cornerstone.Raft.Committer
use cornerstone.Raft.Committer.{can_commit, commit_loop, commit_round}
use cornerstone.Raft.Commits.Rounds.{commit_loop-enough, commit_round-finished}
use cornerstone.Codec.Config.{ClusterConfig, get_server, find_server}
use cornerstone.Raft.Peers.{find_peer}
use cornerstone.Raft.Membership.{reconfigure}
use cornerstone.Raft.Members.Configs.{reconfigure-peers}
use cornerstone.Runs.Server.{node, server_config}

-- A task with a timer, of which one worker has read the flag.
abbrev entered_task : Task ℕ
entered_task = record {
  has_exec = true;
  ctx = 2;
  cancelled = false;
  has_impl_ctx = true;
  has_impl_ctx_del = true;
  entered = 1;
  calls = 2 ∷ [];
  timer = [];
}

cancel_task-Silent_example :
    length (Task.run (ran ∷ expired false ∷ ran ∷ []) (Task.cancel_task entered_task)).calls ≤ 2
cancel_task-Silent_example =
    cancel_task-Silent entered_task (ran ∷ expired false ∷ ran ∷ []) (tt, (tt, (tt, tt)))

update_term-Silent_example :
    (Task.run
      (expired false ∷ ran ∷ [])
      (hb_task 2 (schedule_hb 2 75 ∷ [] ++ (final (update_term 5 node)).trace))).calls
    ≡ []
unfolding hb_task Task.new peer_ids
update_term-Silent_example =
    update_term-Silent 2 5 75 node [] (expired false ∷ ran ∷ []) (omega arith) refl (inl refl) tt
      (tt, (tt, tt))

abbrev leading : Server
leading = record node { leader_id = 1; role = SrvRole.leader }

abbrev given : List (List ℕ)
given = (7 ∷ []) ∷ (8 ∷ 9 ∷ []) ∷ []

append_entries-zero_terms_example :
    ((final (append_entries (λ _. true) given leading)).log
      ≡ log_of 1 (
          leading.log.entries ++ map (λ b. record { term = 0; val_type = app_log; buf = b }) given))
    × ((r : Submitted) (u : Server)
        → append_entries (λ _. true) given leading ≡ done r u
        → r ≡ known true)
append_entries-zero_terms_example =
    append_entries-zero_terms (λ _. true) leading (7 ∷ []) ((8 ∷ 9 ∷ []) ∷ []) refl refl refl

-- The second entry, a configuration, is not committed.
abbrev context : Context
context = record {
  server_id = 1;
  saved_state = some (record { term = 2; commit_idx = 1; voted_for = 3 });
  log_store = record {
    start = 1;
    entries =
        record { term = 1; val_type = app_log; buf = [] }
        ∷ record { term = 2; val_type = conf; buf = [] }
        ∷ [];
  };
  saved_config = node.config;
  params = default_params;
  host = node.host;
}

raft_server-has_config_example :
    Returns
      (raft_server context)
      (λ _ u. u.config_changing ≡ has_config (uncommitted 1 context.log_store))
unfolding initial_state
raft_server-has_config_example = raft_server-has_config context (omega arith) (omega arith)

-- A server that has the entry at 2 still to commit.
abbrev behind : Server
behind = record node { quick_commit_idx = 2 }

commit_loop-enough_example : commit_loop 7 1 behind ≡ commit_loop (2 - 1) 1 behind
commit_loop-enough_example = commit_loop-enough 7 behind (omega arith) (omega arith)

commit_round-finished_example :
    ((2 ≤ (final (commit_round behind)).state.commit_idx)
      ⊎ (behind.log.start + length behind.log.entries
          ≤ (final (commit_round behind)).state.commit_idx + 1))
    × (((final (commit_round behind)).quick_commit_idx ≡ 2)
        × ((final (commit_round behind)).log ≡ behind.log))
unfolding commit_round commit_loop Snapshots.or_halt Snapshots.halt_thrown Committer.commit_one
    can_commit Log.next_slot Committer.commit_entry Log.entry_at Committer.apply_entry
    Committer.apply_typed Snapshots.snapshot_and_compact Snapshots.wants_snapshot
    Types.set_commit_idx
commit_round-finished_example =
    commit_round-finished behind (final (commit_round behind)) (omega arith) (omega arith) refl

-- Server 3 is replaced by server 4.
abbrev replaced : ClusterConfig
replaced = record {
  log_idx = 7;
  prev_log_idx = 1;
  servers = server_config 1 ∷ server_config 2 ∷ server_config 4 ∷ [];
}

reconfigure-peers_example : Returns (reconfigure replaced node) (λ _ u.
    (u.config ≡ replaced)
    × ((k : ℕ) → is_some (find_peer k u.peers) ≡ (is_some (get_server replaced k) && not (k == 1))))
unfolding get_server find_server find_peer
reconfigure-peers_example = reconfigure-peers replaced node refl refl
