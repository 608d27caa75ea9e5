-- ===== src/Raft/Members/Configs.antt =====
-- raft_server.cxx: the peers of a server when a configuration takes effect.
use cornerstone.Common.{
  ℕ, ◌≡◌, refl, ◌∙◌, ap, List, [], ◌∷◌, Bool, true, false, not, ◌&&◌, ◌||◌, is_some, ◌==◌, arith,
  Bool-cases, inl, inr, ==→eq, All, append-nil,
}
use cornerstone.Codec.Srv.{SrvConfig}
use cornerstone.Codec.Config.{ClusterConfig, find_server, get_server}
use cornerstone.Raft.Peers.{Peers, find_peer, peer_ids}
use cornerstone.Raft.Server.{Server}
use cornerstone.Raft.Membership.{
  srvs_added, peers_removed, srvs_removed, add_peers, remove_srvs, reconfigure,
}
use cornerstone.Raft.Places.{is_peer, leaves}
use cornerstone.Raft.Loops.{Returns, Returns-bind}
use cornerstone.Raft.Members.{Turns, joins, adds, all_leave, add_peers-Returns, remove_srvs-Returns}

-- Whether one of the servers has the id.
abbrev names : List SrvConfig → ℕ → Bool
names cs k = is_some (find_server cs k)

adds-names : (cs : List SrvConfig) (k : ℕ) (b : Bool) → adds cs k b ≡ (names cs k || b)
unfolding adds find_server
adds-names [] k b = refl
adds-names (c ∷ cs) k b = ground (arith, adds-names cs k (joins c.id k b))

added-names :
    (id : ℕ) (ps : Peers) (cs : List SrvConfig) (k : ℕ)
    → names (srvs_added id ps cs) k ≡ (names cs k && (not (is_peer k ps) && not (k == id)))
unfolding srvs_added find_server
added-names id ps [] k = refl
added-names id ps (c ∷ cs) k = elim (Bool-cases (c.id == k)) [
  | inl y ↦
      let e : c.id ≡ k = ==→eq c.id k y in
      ground (arith, added-names id ps cs k, ap (λ x. is_peer x ps) e, e, y)
  | inr y ↦ ground (arith, added-names id ps cs k, y)
]

unfoldable mem : ℕ → List ℕ → Bool
mem k [] = false
mem k (x ∷ xs) = (k == x) || mem k xs

all_leave-mem : (ks : List ℕ) (k : ℕ) (b : Bool) → all_leave ks k b ≡ (not (mem k ks) && b)
unfolding all_leave mem
all_leave-mem [] k b = refl
all_leave-mem (x ∷ xs) k b = ground (arith, all_leave-mem xs k (leaves x k b))

removed-mem :
    (config : ClusterConfig) (ks : List ℕ) (k : ℕ)
    → mem k (peers_removed config ks) ≡ (mem k ks && not (is_some (get_server config k)))
unfolding peers_removed mem
removed-mem config [] k = refl
removed-mem config (x ∷ xs) k = elim (Bool-cases (k == x)) [
  | inl y ↦
      let e : k ≡ x = ==→eq k x y in
      ground (arith, removed-mem config xs k, ap (λ j. is_some (get_server config j)) e, e, y)
  | inr y ↦ ground (arith, removed-mem config xs k, y)
]

ids-mem : (ps : Peers) (k : ℕ) → mem k (peer_ids ps) ≡ is_peer k ps
unfolding peer_ids mem find_peer
ids-mem [] k = refl
ids-mem ((j, p) ∷ ps) k = ground (arith, ids-mem ps k)

mem-All : (id : ℕ) (ks : List ℕ) → mem id ks ≡ false → All (λ k. (k == id) ≡ false) ks
unfolding mem
mem-All id [] h = tt
mem-All id (x ∷ xs) h = (ground (arith, h), mem-All id xs (ground (arith, h)))

-- What is added and what is removed, together: `n` tells whether the configuration names a server, `p`
-- whether it was a peer, and `i` whether it is this server, which is no peer.
configured :
    (n p i : Bool)
    → (i ≡ true → p ≡ false)
    → (not (p && not n) && ((n && (not p && not i)) || p)) ≡ (n && not i)
configured true true true h = h refl
configured true true false h = refl
configured true false true h = refl
configured true false false h = refl
configured false true i h = refl
configured false false i h = refl

-- A server that is no peer of its own is not among those that it removes.
own-kept :
    (config : ClusterConfig) (s : Server)
    → is_peer s.id s.peers ≡ false
    → All (λ k. (k == s.id) ≡ false) (peers_removed config (peer_ids s.peers))
own-kept config s a =
    mem-All s.id (peers_removed config (peer_ids s.peers))
      (rw (removed-mem config (peer_ids s.peers) s.id, ids-mem s.peers s.id, a) refl)

peers-configured :
    (config : ClusterConfig) (s u v : Server) (k : ℕ)
    → is_peer s.id s.peers ≡ false
    → Turns (adds (srvs_added s.id s.peers config.servers)) s u
    → Turns (all_leave (peers_removed config (peer_ids s.peers))) u v
    → is_peer k v.peers ≡ (is_some (get_server config k) && not (k == s.id))
unfolding get_server
peers-configured config s u v k a t q =
    q.peers k
    ∙ all_leave-mem (peers_removed config (peer_ids s.peers)) k (is_peer k u.peers)
    ∙ rw
        (
          removed-mem config (peer_ids s.peers) k,
          ids-mem s.peers k,
          t.peers k,
          adds-names (srvs_added s.id s.peers config.servers) k (is_peer k s.peers),
          added-names s.id s.peers config.servers k,
        )
        (configured (names config.servers k) (is_peer k s.peers) (k == s.id)
          (λ y. rw (==→eq k s.id y) a))

-- When a configuration that names this server takes effect, the call returns, the configuration is that
-- of the server, and its peers are the servers that the configuration names, but for itself. The server
-- is no peer of its own before.
pub reconfigure-peers :
    (config : ClusterConfig) (s : Server)
    → is_some (get_server config s.id) ≡ true
    → is_some (find_peer s.id s.peers) ≡ false
    → Returns (reconfigure config s) (λ _ u.
      (u.config ≡ config)
      × ((k : ℕ)
          → is_some (find_peer k u.peers) ≡ (is_some (get_server config k) && not (k == s.id))))
unfolding reconfigure srvs_removed
reconfigure-peers config s h a =
    let removed = peers_removed config (peer_ids s.peers) in
    rw (h, append-nil removed)
      (Returns-bind (add_peers (srvs_added s.id s.peers config.servers) s) _
        (add_peers-Returns (srvs_added s.id s.peers config.servers) s)
        (λ _ u t.
          Returns-bind (remove_srvs config removed u) _
            (remove_srvs-Returns config removed u (rw t.id (own-kept config s a)))
            (λ r v q. rw q.0 (record {
              result = tt;
              after = record v { config = config };
              ends = refl;
              holds = (refl, λ k. peers-configured config s u v k a t q.1);
            }))))
