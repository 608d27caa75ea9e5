-- ===== src/Raft/Start/Changes.antt =====
-- raft_server.hxx: what a server that starts knows of a change of the members that is in progress.
use cornerstone.Common.{
  ℕ, zero, suc, ◌+◌, ◌-◌, ◌<◌, ◌≤◌, ◌^◌, ◌≡◌, refl, sym, ap, ◌∙◌, List, [], some, ◌∷◌, ◌++◌, Bool,
  true, false, if◌then◌else◌, arith, length, take, drop, append_assoc, add64, leb, inl, inr,
  Bool-cases, length-append, length-take, length-drop,
}
use cornerstone.Buffer.{ok}
use cornerstone.Codec.Entry.{LogEntry}
use cornerstone.Log
use cornerstone.Raft.Membership.{is_conf}
use cornerstone.Raft.Server.{Server}
use cornerstone.Raft.Loops.{Returns, log_of, entry_at-append}
use cornerstone.Raft.Timers.{restart_election_timer}
use cornerstone.Raft.Start.{
  Context, initial, initial_state, config_round, find_config, max_ulong, construct, raft_server,
}

unfoldable pub has_config : List LogEntry → Bool
has_config [] = false
has_config (e ∷ es) = if is_conf e.val_type then true else has_config es

take-drop : (n : ℕ) (xs : List LogEntry) → take n xs ++ drop n xs ≡ xs
take-drop zero xs = refl
take-drop (suc n) [] = refl
take-drop (suc n) (x ∷ xs) = ap (◌∷◌ x) (take-drop n xs)

-- The loop over the entries behind `pre`, to the end of the log.
find_config-Returns :
    (es pre : List LogEntry) (start : ℕ) (s : Server)
    → s.log ≡ log_of start (pre ++ es)
    → start + length pre + length es < 2 ^ 64
    → s.config_changing ≡ false
    → Returns
        (find_config (length es) (start + length pre) s)
        (λ _ u. u.config_changing ≡ has_config es)
unfolding find_config config_round has_config
find_config-Returns [] pre start s h w c = record { result = tt; after = s; ends = refl; holds = c }
find_config-Returns (e ∷ es) pre start s h w c = elim (Bool-cases (is_conf e.val_type)) [
  | inl y ↦ rw (found, y) record { result = tt; after = _; ends = refl; holds = refl }
  | inr n ↦
      rw (found, n, next)
        (find_config-Returns es (pre ++ (e ∷ [])) start s
          (h ∙ ap (log_of start) (sym (append_assoc pre (e ∷ []) es)))
          (omega (arith, w, length-append pre (e ∷ []))) c)
]
  where
    next : add64 (start + length pre) 1 ≡ start + length (pre ++ (e ∷ []))
    next = omega (arith, w, length-append pre (e ∷ []))

    found : Log.entry_at s.log (start + length pre) ≡ ok (some e)
    found = ap (λ l. Log.entry_at l (start + length pre)) h ∙ entry_at-append start pre e es

restart_election_timer-Returns :
    (s : Server) (b : Bool)
    → s.config_changing ≡ b
    → Returns (restart_election_timer s) (λ _ u. u.config_changing ≡ b)
unfolding restart_election_timer
restart_election_timer-Returns s b h = elim (Bool-cases s.catching_up) [
  | inl y ↦ rw y record { result = tt; after = _; ends = refl; holds = h }
  | inr n ↦ elim (Bool-cases s.election_task) [
    | inl t ↦ rw (n, t) record { result = tt; after = _; ends = refl; holds = h }
    | inr t ↦ rw (n, t) record { result = tt; after = _; ends = refl; holds = h }
  ]
]

-- The entries behind the commit index `c`, in a log that begins at `start`.
abbrev pub uncommitted : ℕ → Log.Log → List LogEntry
uncommitted c l = drop (c + 1 - l.start) l.entries

drop-beyond : (n : ℕ) (xs : List LogEntry) → length xs ≤ n → drop n xs ≡ []
drop-beyond zero [] h = refl
drop-beyond (suc n) [] h = refl
drop-beyond zero (x ∷ xs) h = absurd (omega (arith, h))
drop-beyond (suc n) (x ∷ xs) h = drop-beyond n xs (omega (arith, h))

-- The constructor's loop, from the later of the start and the index behind the committed ones.
construct-Returns :
    (s : Server) (k i : ℕ)
    → k ≡ s.state.commit_idx + 1 - s.log.start
    → s.log.start + length s.log.entries < 2 ^ 64
    → s.config_changing ≡ false
    → i ≡ max_ulong (add64 s.state.commit_idx 1) s.log.start
    → s.state.commit_idx + 1 < 2 ^ 64
    → Returns
        (find_config (s.log.start + length s.log.entries - i) i s)
        (λ _ u. u.config_changing ≡ has_config (drop k s.log.entries))
unfolding max_ulong find_config has_config
construct-Returns s k i ek w c ei b = elim (Bool-cases (leb k (length s.log.entries))) [
  | inl y ↦
      rw (rounds y, index y)
        (find_config-Returns (drop k s.log.entries) (take k s.log.entries) s.log.start s
          (ap (log_of s.log.start) (sym (take-drop k s.log.entries)))
          (omega (
            arith,
            w,
            ap length (take-drop k s.log.entries),
            length-append (take k s.log.entries) (drop k s.log.entries),
          ))
          c)
  | inr n ↦
      rw (none_left n, drop-beyond k s.log.entries (ground (arith, n)))
        record { result = tt; after = s; ends = refl; holds = c }
]
  where
    none_left : leb k (length s.log.entries) ≡ false → s.log.start + length s.log.entries - i ≡ 0
    none_left n = ground (arith, n, ei, ek)

    rounds :
        leb k (length s.log.entries) ≡ true
        → s.log.start + length s.log.entries - i ≡ length (drop k s.log.entries)
    rounds y = ground (arith, length-drop k s.log.entries, ei, ek)

    index : leb k (length s.log.entries) ≡ true → i ≡ s.log.start + length (take k s.log.entries)
    index y = ground (arith, length-take k s.log.entries, ei, ek)

-- The construction of a server returns, and the server takes a change of the members to be in progress
-- exactly when an entry behind its commit index is a configuration. The indexes of its log and the one
-- behind its commit index fit an ulong.
pub raft_server-has_config :
    (ctx : Context)
    → ctx.log_store.start + length ctx.log_store.entries < 2 ^ 64
    → (initial_state ctx.saved_state).commit_idx + 1 < 2 ^ 64
    → Returns (raft_server ctx) (λ _ u.
      u.config_changing
      ≡ has_config (uncommitted (initial_state ctx.saved_state).commit_idx ctx.log_store))
unfolding raft_server construct initial Log.start_index Log.next_slot
raft_server-has_config ctx w b =
    let found = construct-Returns (initial ctx) _ _ refl w refl refl b in
    rw found.ends (restart_election_timer-Returns _ _ found.holds)
