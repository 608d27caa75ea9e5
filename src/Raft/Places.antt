-- ===== src/Raft/Places.antt =====
-- peer.hxx and raft_server.cxx: which servers are in the table of peers.
use cornerstone.Common.{
  ℕ, ◌≡◌, refl, ap, [], ◌∷◌, ◌++◌, Bool, true, false, not, ◌&&◌, ◌||◌, Option, none, some, is_some,
  ◌==◌, arith, Bool-cases, inl, inr, ==→eq,
}
use cornerstone.Raft.Peers.{Peer, Peers, find_peer, insert_peer, erase_peer, update_peer}

abbrev pub is_peer : ℕ → Peers → Bool
is_peer k ps = is_some (find_peer k ps)

pub is_peer-update :
    (k id : ℕ) (f : Peer → Peer) (ps : Peers) → is_peer k (update_peer id f ps) ≡ is_peer k ps
unfolding find_peer update_peer
is_peer-update k id f [] = refl
is_peer-update k id f ((j, p) ∷ ps) = ground (arith, is_peer-update k id f ps)

is_peer-append :
    (k id : ℕ) (p : Peer) (ps : Peers)
    → is_peer k (ps ++ ((id, p) ∷ [])) ≡ ((k == id) || is_peer k ps)
unfolding find_peer
is_peer-append k id p [] = ground arith
is_peer-append k id p ((j, q) ∷ ps) = ground (arith, is_peer-append k id p ps)

is_peer-same :
    (k id : ℕ) (ps : Peers) → is_peer id ps ≡ true → is_peer k ps ≡ ((k == id) || is_peer k ps)
is_peer-same k id ps h = elim (Bool-cases (k == id)) [
  | inl y ↦ rw (y, ==→eq k id y, h) refl
  | inr y ↦ rw y refl
]

is_peer-inserted :
    (k id : ℕ) (p : Peer) (ps : Peers) (o : Option Peer)
    → find_peer id ps ≡ o
    → is_peer k (insert_peer id p ps) ≡ ((k == id) || is_peer k ps)
unfolding insert_peer
is_peer-inserted k id p ps none e = rw (insert_peer, e) (is_peer-append k id p ps)
is_peer-inserted k id p ps (some q) e = rw (insert_peer, e) (is_peer-same k id ps (ap is_some e))

pub is_peer-insert :
    (k id : ℕ) (p : Peer) (ps : Peers)
    → is_peer k (insert_peer id p ps) ≡ ((k == id) || is_peer k ps)
is_peer-insert k id p ps = is_peer-inserted k id p ps (find_peer id ps) refl

pub is_peer-erase :
    (k id : ℕ) (ps : Peers) → is_peer k (erase_peer id ps) ≡ (not (k == id) && is_peer k ps)
unfolding find_peer erase_peer
is_peer-erase k id [] = ground arith
is_peer-erase k id ((j, q) ∷ ps) = ground (arith, is_peer-erase k id ps)

-- The server leaves the peers.
abbrev pub leaves : ℕ → ℕ → Bool → Bool
leaves id k b = not (k == id) && b

pub is_peer-absent :
    (k id : ℕ) (ps : Peers) → is_peer id ps ≡ false → is_peer k ps ≡ leaves id k (is_peer k ps)
is_peer-absent k id ps h = elim (Bool-cases (k == id)) [
  | inl y ↦ rw (y, ==→eq k id y, h) refl
  | inr y ↦ rw y refl
]
