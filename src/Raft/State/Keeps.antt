-- ===== src/Raft/State/Keeps.antt =====
-- Relations between the persistent states before and after a method, one rule for each way to build
-- a method.
use cornerstone.Common.{
  ◌≤◌, arith, minus_one, ◌⊎◌, inl, inr, sym, ◌∙◌, ◌≡◌, refl, List, [], ◌∷◌, Bool, true, false,
  Option, none, some, if◌then◌else◌, ℕ,
}
use cornerstone.Buffer
use cornerstone.Raft.Types.{SrvState}
use cornerstone.Raft.Peers.{Peer}
use cornerstone.Raft.Run.{final}
use cornerstone.Raft.Server.{
  Server, Outcome, M, done, exited, thrown, ◌>>=◌, ◌>>◌, pure, gets, modify, emit, when, halt, lift,
  deref, for_each, continue, on_some, Effect, PeerRef, member, joining, set_peer, modify_peer,
}

-- How the persistent state may move: terms and the commit index do not go back, and within a term a
-- vote that is given stays.
pub record Advances (a b : SrvState) : Type 0 where
  pub term : a.term ≤ b.term
  pub commit_idx : a.commit_idx ≤ b.commit_idx
  pub voted_for : a.term ≡ b.term → (a.voted_for ≡ minus_one) ⊎ (b.voted_for ≡ a.voted_for)

pub Advances-refl : (a : SrvState) → Advances a a
Advances-refl a = record { term = omega arith; commit_idx = omega arith; voted_for = λ _. inr refl }

vote_trans :
    (a b c : ℕ) → (a ≡ minus_one) ⊎ (b ≡ a) → (b ≡ minus_one) ⊎ (c ≡ b) → (a ≡ minus_one) ⊎ (c ≡ a)
vote_trans a b c (inl h) k = inl h
vote_trans a b c (inr h) (inl k) = inl (sym h ∙ k)
vote_trans a b c (inr h) (inr k) = inr (k ∙ h)

pub Advances-trans : (a b c : SrvState) → Advances a b → Advances b c → Advances a c
Advances-trans a b c h k = record {
  term = omega (arith, h.term, k.term);
  commit_idx = omega (arith, h.commit_idx, k.commit_idx);
  voted_for = λ e.
      vote_trans a.voted_for b.voted_for c.voted_for
        (h.voted_for (omega (arith, e, h.term, k.term)))
        (k.voted_for (omega (arith, e, h.term, k.term)));
}

pub record Keeps {A : Type 0} (m : M A) : Type 0 where
  pub at : (s : Server) → Advances s.state (final (m s)).state

pub Keeps-pure : {A : Type 0} (a : A) → Keeps (pure a)
Keeps-pure a = record { at = λ s. Advances-refl s.state }

pub Keeps-gets : {A : Type 0} (f : Server → A) → Keeps (gets f)
Keeps-gets f = record { at = λ s. Advances-refl s.state }

pub Keeps-emit : (e : Effect) → Keeps (emit e)
Keeps-emit e = record { at = λ s. Advances-refl s.state }

pub Keeps-halt : {A : Type 0} (c d : ℕ) → Keeps {A = A} (halt c d)
Keeps-halt c d = record { at = λ s. Advances-refl s.state }

Keeps-lifted :
    {A : Type 0} (r : Buffer.Result A) (s : Server) → Advances s.state (final (lift r s)).state
Keeps-lifted (Buffer.ok a) s = Advances-refl s.state
Keeps-lifted (Buffer.err e) s = Advances-refl s.state

pub Keeps-lift : {A : Type 0} (r : Buffer.Result A) → Keeps (lift r)
Keeps-lift r = record { at = Keeps-lifted r }

Keeps-derefed :
    {A : Type 0} (r : Option A) (s : Server) → Advances s.state (final (deref r s)).state
Keeps-derefed none s = Advances-refl s.state
Keeps-derefed (some e) s = Advances-refl s.state

pub Keeps-deref : {A : Type 0} (r : Option A) → Keeps (deref r)
Keeps-deref r = record { at = Keeps-derefed r }

Keeps-set_peer :
    (r : PeerRef) (f : Peer → Peer) (s : Server) → Advances s.state (set_peer r f s).state
unfolding set_peer
Keeps-set_peer (member id) f s = Advances-refl s.state
Keeps-set_peer joining f s = Advances-refl s.state

pub Keeps-modify_peer : (r : PeerRef) (f : Peer → Peer) → Keeps (modify_peer r f)
Keeps-modify_peer r f = record { at = Keeps-set_peer r f }

-- A change of the state that is not the persistent one.
pub Keeps-modify : (f : Server → Server) → ((s : Server) → (f s).state ≡ s.state) → Keeps (modify f)
Keeps-modify f h = record { at = λ s. rw (h s) (Advances-refl s.state) }

-- A change of the persistent state.
pub Keeps-change :
    (f : Server → Server) → ((s : Server) → Advances s.state (f s).state) → Keeps (modify f)
Keeps-change f h = record { at = h }

Keeps-continue :
    {A B : Type 0} (r : Outcome A) (f : A → M B) (a : SrvState)
    → Advances a (final r).state
    → ((x : A) → Keeps (f x))
    → Advances a (final (continue r f)).state
Keeps-continue (done x s) f a h kf = Advances-trans a s.state (final (f x s)).state h ((kf x).at s)
Keeps-continue (exited c s) f a h kf = h
Keeps-continue (thrown e s) f a h kf = h

pub Keeps-bind :
    {A B : Type 0} (m : M A) (f : A → M B) → Keeps m → ((a : A) → Keeps (f a)) → Keeps (m >>= f)
Keeps-bind m f km kf = record { at = λ s. Keeps-continue (m s) f s.state (km.at s) kf }

pub Keeps-then : {B : Type 0} (m : M (Unit {0})) (k : M B) → Keeps m → Keeps k → Keeps (m >> k)
Keeps-then m k km kk = record {
  at = λ s. Keeps-continue (m s) (λ _. k) s.state (km.at s) (λ _. kk);
}

pub Keeps-when : (b : Bool) (m : M (Unit {0})) → Keeps m → Keeps (when b m)
Keeps-when true m km = km
Keeps-when false m km = Keeps-pure tt

pub Keeps-if : {A : Type 0} (b : Bool) (m n : M A) → Keeps m → Keeps n → Keeps (if b then m else n)
Keeps-if true m n km kn = km
Keeps-if false m n km kn = kn

pub Keeps-for_each :
    (xs : List ℕ) (f : ℕ → M (Unit {0})) → ((x : ℕ) → Keeps (f x)) → Keeps (for_each xs f)
Keeps-for_each [] f h = Keeps-pure tt
Keeps-for_each (x ∷ xs) f h =
    Keeps-bind (f x) (λ _. for_each xs f) (h x) (λ _. Keeps-for_each xs f h)

pub Keeps-on_some :
    {A B : Type 0} (x : Option A) (m : M B) (f : A → M B)
    → Keeps m
    → ((a : A) → Keeps (f a))
    → Keeps (on_some x m f)
Keeps-on_some none m f km kf = km
Keeps-on_some (some a) m f km kf = kf a

pub ruleset keeps_rules = (
  Keeps-pure, Keeps-gets, Keeps-emit, Keeps-halt, Keeps-lift, Keeps-deref, Keeps-modify_peer,
  Keeps-modify, Keeps-when, Keeps-if, Keeps-for_each, Keeps-bind, Keeps-then, Keeps-on_some,
)
