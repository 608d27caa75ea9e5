-- ===== src/Raft/Stored.antt =====
-- raft_server.cxx: the log after the entries of a leader are stored.
use cornerstone.Common.{
  ℕ, ◌+◌, ◌<◌, ◌≡◌, ◌^◌, refl, sym, ap, ◌∙◌, List, [], ◌∷◌, ◌++◌, length, ◌==◌, inl, inr,
  if◌then◌else◌, add64, arith, Bool-cases, length-append, append_assoc, append-nil,
}
use cornerstone.Codec.Entry.{LogEntry}
use cornerstone.Raft.Server.{Server, M, ◌>>=◌}
use cornerstone.Raft.Append.{skip_overlap, write_over, append_new, store_entries}
use cornerstone.Raft.Loops.{
  Returns, log_of, append_new-Returns, skip_same, skip_differ, write_within, skip_end, write_end,
}

-- The entries that a log holds from some index on, after those of a leader are stored there: as long
-- as the terms agree the old ones stay, and from the first that differs on all are the leader's.
unfoldable pub merge : List LogEntry → List LogEntry → List LogEntry
merge old [] = old
merge [] (e ∷ es) = e ∷ es
merge (o ∷ os) (e ∷ es) = let rest = merge os es in if o.term == e.term then o ∷ rest else e ∷ es

-- The second and the third loop.
unfoldable finish : ℕ × List LogEntry → M (Unit {0})
finish left = do fresh ← write_over left.0 left.1; append_new fresh

finish-differ :
    (start : ℕ) (pre : List LogEntry) (o : LogEntry) (os : List LogEntry) (e : LogEntry)
    (es : List LogEntry) (s : Server)
    → s.log ≡ log_of start (pre ++ (o ∷ os))
    → start + length pre + 1 < 2 ^ 64
    → Returns
        (finish (start + length pre, e ∷ es) s)
        (λ _ u. u.log ≡ log_of start (pre ++ (e ∷ es)))
unfolding write_over finish
finish-differ start pre o os e es s h w =
    let (u, (hu, eq)) =
      write_within start pre o os e es (write_over (add64 (start + length pre) 1) es) s h in
    rw
      (
        eq,
        write_end start (pre ++ (e ∷ [])) es (add64 (start + length pre) 1) u hu
            (omega (arith, w, length-append pre (e ∷ []))),
      )
      (rw (← append_assoc pre (e ∷ []) es) (append_new-Returns es start (pre ++ (e ∷ [])) u hu))

-- Where the log of a follower is `pre` and then `old`, and the entries of the leader belong behind
-- `pre`, storing them returns, and makes the log `pre` and then `merge old entries`: nothing that
-- agrees with the leader is lost, and all that the leader sent is there. No index passes 64 bits.
pub store_entries-merge :
    (s : Server) (start : ℕ) (pre old entries : List LogEntry)
    → s.log ≡ log_of start (pre ++ old)
    → start + length pre + length entries < 2 ^ 64
    → Returns
        (store_entries (start + length pre) entries s)
        (λ _ u. u.log ≡ log_of start (pre ++ merge old entries))
unfolding store_entries skip_overlap write_over append_new merge finish
store_entries-merge s start pre old [] h w = record {
  result = tt;
  after = s;
  ends = refl;
  holds = h;
}
store_entries-merge s start pre [] (e ∷ es) h w =
    rw
      (
        skip_end start pre e es (skip_overlap (add64 (start + length pre) 1) es) s
            (h ∙ ap (log_of start) (append-nil pre)),
        write_end start pre (e ∷ es) (start + length pre) s (h ∙ ap (log_of start) (append-nil pre))
            refl,
      )
      (append_new-Returns (e ∷ es) start pre s (h ∙ ap (log_of start) (append-nil pre)))
store_entries-merge s start pre (o ∷ os) (e ∷ es) h w = elim (Bool-cases (o.term == e.term)) [
  | inl t ↦
      let rest =
        store_entries-merge s start (pre ++ (o ∷ [])) os es
          (h ∙ ap (log_of start) (sym (append_assoc pre (o ∷ []) os)))
          (omega (arith, w, length-append pre (o ∷ []))) in
      let idx : start + length (pre ++ (o ∷ [])) ≡ add64 (start + length pre) 1 =
        omega (arith, w, length-append pre (o ∷ [])) in
      rw (skip_same start pre o os e es (skip_overlap (add64 (start + length pre) 1) es) s h t, t)
        (rw (← idx, ← append_assoc pre (o ∷ []) (merge os es)) rest)
  | inr t ↦
      rw (skip_differ start pre o os e es (skip_overlap (add64 (start + length pre) 1) es) s h t, t)
        (finish-differ start pre o os e es s h (omega (arith, w)))
]
