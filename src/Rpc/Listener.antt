-- ===== src/Rpc/Listener.antt =====
-- asio_service.cxx: the listener. The acceptor is asio's; a session is known by its address.
use cornerstone.Common.{
  ℕ, suc, ◌+◌, ◌≡◌, refl, List, [], ◌∷◌, Bool, true, false, ◌==◌, if◌then◌else◌, length, arith,
}

-- The sessions that were started, the latest first, and the accepts that asio was asked for.
pub record Listener : Type 0 where
  pub has_handler : Bool
  pub closed : Bool
  pub active_sessions : List ℕ
  pub started : List ℕ
  pub accepts : ℕ

-- The constructor.
unfoldable pub new : Listener
new = record {
  has_handler = false;
  closed = false;
  active_sessions = [];
  started = [];
  accepts = 0;
}

unfoldable pub start : Listener → Listener
start l = record l { accepts = suc l.accepts }

unfoldable pub listen : Listener → Listener
unfolding start
listen l = start (record l { has_handler = true })

unfoldable pub stop : Listener → Listener
stop l = record l { closed = true }

-- The callback of an accept, with the session that it was for.
unfoldable pub accepted : Bool → ℕ → Listener → Listener
unfolding start
accepted true session l = start l
accepted false session l = start (record l { started = session ∷ l.started })

unfoldable pub erase_session : ℕ → List ℕ → List ℕ
erase_session session [] = []
erase_session session (x ∷ xs) =
    let rest = erase_session session xs in if x == session then xs else x ∷ rest

unfoldable pub remove_session : ℕ → Listener → Listener
unfolding erase_session
remove_session session l = record l { active_sessions = erase_session session l.active_sessions }

-- Accepts that end, each with asio's error or none.
unfoldable pub run : List (Bool × ℕ) → Listener → Listener
unfolding accepted
run [] l = l
run ((failed, session) ∷ es) l = run es (accepted failed session l)

-- Every accept that ends is followed by another one, also after `stop`, so that a closed acceptor is asked
-- again and again; and no session becomes an active one.
run-accepts :
    (es : List (Bool × ℕ)) (l : Listener)
    → ((run es l).accepts ≡ length es + l.accepts)
      × ((run es l).active_sessions ≡ l.active_sessions)
unfolding run
run-accepts [] l = (omega arith, refl)
run-accepts ((true, session) ∷ es) l =
    let h = run-accepts es (accepted true session l) in (omega (arith, h.0), h.1)
run-accepts ((false, session) ∷ es) l =
    let h = run-accepts es (accepted false session l) in (omega (arith, h.0), h.1)
