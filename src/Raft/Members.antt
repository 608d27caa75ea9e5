-- ===== src/Raft/Members.antt =====
-- raft_server.cxx: how the steps of `reconfigure` change the peers of a server.
pub mod Configs
use cornerstone.Common.{
  ℕ, ◌≡◌, refl, ◌∙◌, ap, List, [], ◌∷◌, Bool, true, false, ◌||◌, Option, none, some, is_some, ◌==◌,
  Bool-cases, inl, inr, ==_refl, All,
}
use cornerstone.Codec.Srv.{SrvConfig}
use cornerstone.Codec.Config.{ClusterConfig}
use cornerstone.Log
use cornerstone.Raft.Peers.{
  Peer, find_peer, insert_peer, update_peer, resume_hb_speed, set_hb_enabled, set_next_log_idx,
  new_peer,
}
use cornerstone.Raft.Server.{Server, Outcome, member, set_peer, get_peer, is_leader}
use cornerstone.Raft.Timers.{enable_hb_for_peer, disable_hb}
use cornerstone.Raft.Membership.{
  take_over_joining, add_peer, add_peers, drop_peer, remove_round, remove_srvs,
}
use cornerstone.Raft.Places.{
  is_peer, is_peer-update, is_peer-insert, is_peer-erase, is_peer-absent, leaves,
}
use cornerstone.Raft.Loops.{Returns, Returns-bind}

-- What a step does to each server's place among the peers; the identity of the server stays.
pub record Turns (f : ℕ → Bool → Bool) (s u : Server) : Type 0 where
  pub peers : (k : ℕ) → is_peer k u.peers ≡ f k (is_peer k s.peers)
  pub id : u.id ≡ s.id
  pub catching_up : u.catching_up ≡ s.catching_up

abbrev same : ℕ → Bool → Bool
same k b = b

Turns-then :
    {f g : ℕ → Bool → Bool} {s u v : Server}
    → Turns f s u
    → Turns g u v
    → Turns (λ k b. g k (f k b)) s v
Turns-then {g = g} h i = record {
  peers = λ k. i.peers k ∙ ap (g k) (h.peers k);
  id = i.id ∙ h.id;
  catching_up = i.catching_up ∙ h.catching_up;
}

enabled-Returns :
    (id : ℕ) (s : Server) (o : Option Peer)
    → find_peer id (update_peer id resume_hb_speed (update_peer id (set_hb_enabled true) s.peers))
      ≡ o
    → is_some o ≡ true
    → Returns (enable_hb_for_peer (member id) id s) (λ _ u. Turns same s u)
unfolding enable_hb_for_peer set_peer get_peer
enabled-Returns id s none e h = absurd cc
enabled-Returns id s (some q) e h = rw e (record {
  result = tt;
  after = _;
  ends = refl;
  holds = record {
    peers = λ k.
        is_peer-update k id resume_hb_speed (update_peer id (set_hb_enabled true) s.peers)
        ∙ is_peer-update k id (set_hb_enabled true) s.peers;
    id = refl;
    catching_up = refl;
  };
})

take_over_joining-Returns :
    (id : ℕ) (o : Option Peer) (s : Server)
    → Returns (take_over_joining id o s) (λ _ u. Turns same s u)
unfolding take_over_joining set_peer
take_over_joining-Returns id none s = record {
  result = tt;
  after = s;
  ends = refl;
  holds = record { peers = λ k. refl; id = refl; catching_up = refl };
}
take_over_joining-Returns id (some j) s = elim (Bool-cases (j.config.id == id)) [
  | inl y ↦ rw y (record {
    result = tt;
    after = _;
    ends = refl;
    holds = record {
      peers = λ k. is_peer-update k id (set_next_log_idx j.next_log_idx) s.peers;
      id = refl;
      catching_up = refl;
    };
  })
  | inr y ↦ rw y (record {
    result = tt;
    after = s;
    ends = refl;
    holds = record { peers = λ k. refl; id = refl; catching_up = refl };
  })
]

-- The server joins the peers.
abbrev pub joins : ℕ → ℕ → Bool → Bool
joins id k b = (k == id) || b

pub Returns-map :
    {A : Type 0} {P Q : A → Server → Type 0} {o : Outcome A}
    → Returns o P
    → ((a : A) (u : Server) → P a u → Q a u)
    → Returns o Q
Returns-map r h = record {
  result = r.result;
  after = r.after;
  ends = r.ends;
  holds = h r.result r.after r.holds;
}

abbrev inserted : SrvConfig → Server → Server
inserted c s = record s {
  peers = insert_peer c.id (set_next_log_idx (Log.next_slot s.log) (new_peer c s.params)) s.peers;
}

inserted-Turns : (c : SrvConfig) (s : Server) → Turns (joins c.id) s (inserted c s)
inserted-Turns c s = record {
  peers = λ k.
      is_peer-insert k c.id (set_next_log_idx (Log.next_slot s.log) (new_peer c s.params)) s.peers;
  id = refl;
  catching_up = refl;
}

inserted-peer :
    (c : SrvConfig) (s : Server)
    → is_peer c.id (
        update_peer c.id resume_hb_speed
          (update_peer c.id (set_hb_enabled true) (inserted c s).peers))
      ≡ true
inserted-peer c s =
    is_peer-update c.id c.id resume_hb_speed
      (update_peer c.id (set_hb_enabled true) (inserted c s).peers)
    ∙ is_peer-update c.id c.id (set_hb_enabled true) (inserted c s).peers
    ∙ (inserted-Turns c s).peers c.id
    ∙ ap (λ b. b || is_peer c.id s.peers) (==_refl c.id)

add_peer-Returns :
    (c : SrvConfig) (s : Server) → Returns (add_peer c s) (λ _ u. Turns (joins c.id) s u)
unfolding add_peer
add_peer-Returns c s = elim (Bool-cases (is_leader s.role)) [
  | inl y ↦ rw y (
      Returns-bind (enable_hb_for_peer (member c.id) c.id (inserted c s)) _
        (enabled-Returns c.id (inserted c s) _ refl (inserted-peer c s))
        (λ _ u h.
          Returns-map (take_over_joining-Returns c.id u.srv_to_join u)
            (λ _ v i. Turns-then (Turns-then (inserted-Turns c s) h) i)))
  | inr y ↦ rw y (record { result = tt; after = _; ends = refl; holds = inserted-Turns c s })
]

unfoldable pub adds : List SrvConfig → ℕ → Bool → Bool
adds [] k b = b
adds (c ∷ cs) k b = adds cs k (joins c.id k b)

pub add_peers-Returns :
    (cs : List SrvConfig) (s : Server) → Returns (add_peers cs s) (λ _ u. Turns (adds cs) s u)
unfolding add_peers adds
add_peers-Returns [] s = record {
  result = tt;
  after = s;
  ends = refl;
  holds = record { peers = λ k. refl; id = refl; catching_up = refl };
}
add_peers-Returns (c ∷ cs) s =
    Returns-bind (add_peer c s) (λ _. add_peers cs) (add_peer-Returns c s)
      (λ _ u h. Returns-map (add_peers-Returns cs u) (λ _ v i. Turns-then h i))

drop_peer-Returns : (id : ℕ) (s : Server) → Returns (drop_peer id s) (λ _ u. Turns (leaves id) s u)
unfolding drop_peer disable_hb set_peer get_peer
drop_peer-Returns id s = elim (Bool-cases (is_peer id s.peers)) [
  | inl y ↦ rw y (record {
    result = tt;
    after = _;
    ends = refl;
    holds = record {
      peers = λ k.
          is_peer-erase k id (update_peer id (set_hb_enabled false) s.peers)
          ∙ ap (leaves id k) (is_peer-update k id (set_hb_enabled false) s.peers);
      id = refl;
      catching_up = refl;
    };
  })
  | inr y ↦ rw y (record {
    result = tt;
    after = s;
    ends = refl;
    holds = record { peers = λ k. is_peer-absent k id s.peers y; id = refl; catching_up = refl };
  })
]

unfoldable pub all_leave : List ℕ → ℕ → Bool → Bool
all_leave [] k b = b
all_leave (x ∷ xs) k b = all_leave xs k (leaves x k b)

pub remove_srvs-Returns :
    (config : ClusterConfig) (ids : List ℕ) (s : Server)
    → All (λ k. (k == s.id) ≡ false) ids
    → Returns (remove_srvs config ids s) (λ r u. (r ≡ true) × Turns (all_leave ids) s u)
unfolding remove_srvs remove_round all_leave
remove_srvs-Returns config [] s a = record {
  result = true;
  after = s;
  ends = refl;
  holds = (refl, record { peers = λ k. refl; id = refl; catching_up = refl });
}
remove_srvs-Returns config (x ∷ xs) s a = rw a.0 (
    Returns-bind (drop_peer x s) (λ _. remove_srvs config xs) (drop_peer-Returns x s)
      (λ _ u h.
        Returns-map (remove_srvs-Returns config xs u (rw h.id a.1))
          (λ r v i. (i.0, Turns-then h i.1))))
