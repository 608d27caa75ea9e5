-- ===== src/Raft/Kept.antt =====
-- raft_server.cxx: methods that leave a part of the server as it is, one rule for each way to build a
-- method. `view` tells the part.
use cornerstone.Common.{
  ◌≡◌, refl, ◌∙◌, List, [], ◌∷◌, Bool, true, false, Option, none, some, if◌then◌else◌, ℕ,
}
use cornerstone.Buffer
use cornerstone.Raft.Peers.{Peer}
use cornerstone.Raft.Run.{final}
use cornerstone.Raft.Server.{
  Server, Outcome, M, done, exited, thrown, ◌>>=◌, ◌>>◌, pure, gets, modify, emit, when, halt, lift,
  deref, for_each, on_some, continue, Effect, PeerRef, set_peer, modify_peer,
}

pub record Kept {F A : Type 0} (view : Server → F) (m : M A) : Type 0 where
  pub at : (s : Server) → view (final (m s)) ≡ view s

module _ {F : Type 0} {view : Server → F} where
  pub Kept-pure : {A : Type 0} (a : A) → Kept view (pure a)
  Kept-pure a = record { at = λ s. refl }

  pub Kept-gets : {A : Type 0} (f : Server → A) → Kept view (gets f)
  Kept-gets f = record { at = λ s. refl }

  pub Kept-emit :
      (e : Effect) → ((s : Server) → view (final (emit e s)) ≡ view s) → Kept view (emit e)
  Kept-emit e h = record { at = h }

  pub Kept-halt :
      {A : Type 0} (c d : ℕ)
      → ((s : Server) → view (final (halt {A = A} c d s)) ≡ view s)
      → Kept {A = A} view (halt c d)
  Kept-halt c d h = record { at = h }

  pub Kept-lift : {A : Type 0} (r : Buffer.Result A) → Kept view (lift r)
  Kept-lift (Buffer.ok a) = record { at = λ s. refl }
  Kept-lift (Buffer.err e) = record { at = λ s. refl }

  pub Kept-deref : {A : Type 0} (r : Option A) → Kept view (deref r)
  Kept-deref none = record { at = λ s. refl }
  Kept-deref (some e) = record { at = λ s. refl }

  pub Kept-modify_peer :
      (r : PeerRef) (f : Peer → Peer)
      → ((s : Server) → view (set_peer r f s) ≡ view s)
      → Kept view (modify_peer r f)
  Kept-modify_peer r f h = record { at = h }

  pub Kept-modify :
      (f : Server → Server) → ((s : Server) → view (f s) ≡ view s) → Kept view (modify f)
  Kept-modify f h = record { at = h }

  pub continue-view :
      {A B : Type 0} (r : Outcome A) (f : A → M B) (l : F)
      → view (final r) ≡ l
      → ((x : A) → Kept view (f x))
      → view (final (continue r f)) ≡ l
  continue-view (done x s) f l h kf = (kf x).at s ∙ h
  continue-view (exited c s) f l h kf = h
  continue-view (thrown e s) f l h kf = h

  pub Kept-bind :
      {A B : Type 0} (m : M A) (f : A → M B)
      → Kept view m
      → ((a : A) → Kept view (f a))
      → Kept view (m >>= f)
  Kept-bind m f km kf = record { at = λ s. continue-view (m s) f (view s) (km.at s) kf }

  pub Kept-then :
      {B : Type 0} (m : M (Unit {0})) (k : M B) → Kept view m → Kept view k → Kept view (m >> k)
  Kept-then m k km kk = record {
    at = λ s. continue-view (m s) (λ _. k) (view s) (km.at s) (λ _. kk);
  }

  pub Kept-when : (b : Bool) (m : M (Unit {0})) → Kept view m → Kept view (when b m)
  Kept-when true m km = km
  Kept-when false m km = Kept-pure tt

  pub Kept-if :
      {A : Type 0} (b : Bool) (m n : M A)
      → Kept view m
      → Kept view n
      → Kept view (if b then m else n)
  Kept-if true m n km kn = km
  Kept-if false m n km kn = kn

  pub Kept-for_each :
      (xs : List ℕ) (f : ℕ → M (Unit {0})) → ((x : ℕ) → Kept view (f x)) → Kept view (for_each xs f)
  Kept-for_each [] f h = Kept-pure tt
  Kept-for_each (x ∷ xs) f h =
      Kept-bind (f x) (λ _. for_each xs f) (h x) (λ _. Kept-for_each xs f h)

  pub Kept-on_some :
      {A B : Type 0} (x : Option A) (m : M B) (f : A → M B)
      → Kept view m
      → ((a : A) → Kept view (f a))
      → Kept view (on_some x m f)
  Kept-on_some none m f km kf = km
  Kept-on_some (some a) m f km kf = kf a

pub ruleset kept_rules = (
  Kept-pure, Kept-gets, Kept-emit, Kept-halt, Kept-lift, Kept-deref, Kept-modify_peer, Kept-modify,
  Kept-when, Kept-if, Kept-for_each, Kept-bind, Kept-then, Kept-on_some,
)
