-- ===== src/Logger/Lines.antt =====
-- asio_service.cxx: the lines of a logger, and their order.
use cornerstone.Common.{
  ℕ, ◌≡◌, refl, sym, ap, ◌∙◌, List, [], ◌∷◌, ◌++◌, if◌then◌else◌, leb, append_assoc, append-nil,
  inl, inr, Bool-cases, arith,
}
use cornerstone.Logger.{
  Line, Level, level_number, Logger, take_lines, write_line, write_lines, flush, write_log, log,
}

-- What happens to a logger: a call of one of its methods, and the steps of a flush.
pub data Event : Type 0 where
  logged : Level → ℕ → Line → Event
  taken wrote flushed : Event

-- The lines that are in the file, or on their way to it.
abbrev pub lines : Logger → List Line
lines l = l.fs ++ (l.backup ++ l.buffer)

write_lines-fs : (xs : List Line) (l : Logger) → (write_lines xs l).fs ≡ l.fs ++ xs
unfolding write_lines
write_lines-fs [] l = sym (append-nil l.fs)
write_lines-fs (x ∷ xs) l = write_lines-fs xs _ ∙ append_assoc l.fs (x ∷ []) xs

write_lines-rest :
    (xs : List Line) (l : Logger)
    → l.backup ≡ xs
    → ((write_lines xs l).backup ≡ []) × ((write_lines xs l).buffer ≡ l.buffer)
unfolding write_lines
write_lines-rest [] l h = (h, refl)
write_lines-rest (x ∷ xs) l h = write_lines-rest xs _ refl

write_line-lines : (xs : List Line) (l : Logger) → l.backup ≡ xs → lines (write_line xs l) ≡ lines l
unfolding write_line
write_line-lines [] l h = refl
write_line-lines (x ∷ xs) l h =
    append_assoc l.fs (x ∷ []) (xs ++ l.buffer) ∙ ap (λ b. l.fs ++ (b ++ l.buffer)) (sym h)

flush-lines : (l : Logger) → lines (flush l) ≡ lines l
unfolding flush take_lines
flush-lines l =
    let t = take_lines l in
    let done = write_lines-rest t.backup t refl in
    rw (done.0, done.1, append-nil, write_lines-fs t.backup t) refl

write_lines-level : (xs : List Line) (l : Logger) → (write_lines xs l).level ≡ l.level
unfolding write_lines
write_lines-level [] l = refl
write_lines-level (x ∷ xs) l = write_lines-level xs _

write_line-level : (xs : List Line) (l : Logger) → (write_line xs l).level ≡ l.level
unfolding write_line
write_line-level [] l = refl
write_line-level (x ∷ xs) l = refl

module _ (prefix : ℕ → Level → Line) where
  unfoldable pub step : Event → Logger → Logger
  step (logged level now line) l = log prefix level now line l
  step taken l = take_lines l
  step wrote l = write_line l.backup l
  step flushed l = flush l

  unfoldable pub run : List Event → Logger → Logger
  run [] l = l
  run (e ∷ es) l = run es (step e l)

  -- The lines of the calls at or above the level of the logger, in their order.
  unfoldable pub wanted : ℕ → List Event → List Line
  wanted threshold [] = []
  wanted threshold (logged level now line ∷ es) =
      let rest = wanted threshold es in
      if leb threshold (level_number level) then (prefix now level ++ line) ∷ rest else rest
  wanted threshold (_ ∷ es) = wanted threshold es

  -- One event adds the lines that it logs behind the others.
  step-lines : (e : Event) (l : Logger) → lines (step e l) ≡ lines l ++ wanted l.level (e ∷ [])
  unfolding step wanted log write_log take_lines
  step-lines (logged level now line) l = elim (Bool-cases (leb l.level (level_number level))) [
    | inl y ↦ rw y (simp append_assoc)
    | inr n ↦ rw n (sym (append-nil _))
  ]
  step-lines taken l = simp append-nil
  step-lines wrote l = write_line-lines l.backup l refl ∙ sym (append-nil _)
  step-lines flushed l = flush-lines l ∙ sym (append-nil _)

  step-level : (e : Event) (l : Logger) → (step e l).level ≡ l.level
  unfolding step log write_log take_lines flush
  step-level (logged level now line) l = ground arith
  step-level taken l = refl
  step-level wrote l = write_line-level l.backup l
  step-level flushed l = write_lines-level (take_lines l).backup (take_lines l)

  wanted-cons :
      (k : ℕ) (e : Event) (es : List Event) → wanted k (e ∷ []) ++ wanted k es ≡ wanted k (e ∷ es)
  unfolding wanted
  wanted-cons k (logged level now line) es = elim (Bool-cases (leb k (level_number level))) [
    | inl y ↦ rw y refl
    | inr n ↦ rw n refl
  ]
  wanted-cons k _ es = refl

  run-lines : (es : List Event) (l : Logger) → lines (run es l) ≡ lines l ++ wanted l.level es
  unfolding run wanted
  run-lines [] l = sym (append-nil (lines l))
  run-lines (e ∷ es) l =
      run-lines es (step e l)
      ∙ ap (λ k. lines (step e l) ++ wanted k es) (step-level e l)
      ∙ ap (λ xs. xs ++ wanted l.level es) (step-lines e l)
      ∙ append_assoc (lines l) (wanted l.level (e ∷ [])) (wanted l.level es)
      ∙ ap (λ xs. lines l ++ xs) (wanted-cons l.level e es)

  -- Over any calls of a logger's methods and any steps of its flushes, its file, the lines that a flush
  -- has taken and those that wait are together the lines from before and those logged at its level or
  -- above, in the order of the calls; and a flush that ends leaves all of them in the file.
  pub flush-run :
      (es : List Event) (l : Logger)
      → (lines (run es l) ≡ lines l ++ wanted l.level es)
        × ((flush (run es l)).fs ≡ lines l ++ wanted l.level es)
  unfolding flush take_lines
  flush-run es l = (
    run-lines es l,
    write_lines-fs (take_lines (run es l)).backup (take_lines (run es l)) ∙ run-lines es l,
  )
