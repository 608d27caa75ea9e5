-- ===== src/Async.antt =====
-- async.hxx: a result that comes later, with its handler.
-- The calls of handlers are kept, oldest first, with what they are given; the value before there is a
-- result is none. Each method holds the lock throughout, but for the wait in `get`.
use cornerstone.Common.{
  ◌≡◌, refl, List, [], ◌∷◌, ◌++◌, Option, none, some, Bool, true, false, if◌then◌else◌, map,
  append_assoc, append-nil, ◌∙◌, ap, sym,
}

module _ (T E H : Type 0) where
  pub record AsyncResult : Type 0 where
    pub result : Option T
    pub err : Option E
    pub has_result : Bool
    pub handler : Option H
    pub calls : List (H × (Option T × Option E))

-- How `get` goes on: it returns, throws, or waits for a notification.
pub data Get (T E : Type 0) : Type 0 where
  returned : Option T → Get T E
  thrown : E → Get T E
  waits : Get T E

-- What the caller of `get` is told of a result with or without an error.
abbrev told : {T E : Type 0} → T → Option E → Get T E
told r none = returned (some r)
told r (some e) = thrown e

module _ {T E H : Type 0} where
  -- The three constructors.
  unfoldable pub pending : AsyncResult T E H
  pending = record { result = none; err = none; has_result = false; handler = none; calls = [] }

  unfoldable pub of_result : T → AsyncResult T E H
  unfolding pending
  of_result r = record pending { result = some r; has_result = true }

  unfoldable pub of_handler : H → AsyncResult T E H
  unfolding pending
  of_handler h = record pending { handler = some h; has_result = true }

  unfoldable pub call : H → Option T → Option E → AsyncResult T E H → AsyncResult T E H
  call h r e a = record a { calls = a.calls ++ ((h, (r, e)) ∷ []) }

  unfoldable pub when_ready : H → AsyncResult T E H → AsyncResult T E H
  unfolding call
  when_ready h a = if a.has_result then call h a.result a.err a else record a { handler = some h }

  unfoldable pub call_handler :
      Option H → Option T → Option E → AsyncResult T E H → AsyncResult T E H
  unfolding call
  call_handler none r e a = a
  call_handler (some h) r e a = call h r e a

  unfoldable pub set_result : T → Option E → AsyncResult T E H → AsyncResult T E H
  unfolding call_handler
  set_result r e a =
      call_handler a.handler (some r) e (record a { result = some r; err = e; has_result = true })

  -- The end of `get`, also after a wait, which does not look at `has_result` again.
  unfoldable pub value_of : AsyncResult T E H → Get T E
  value_of a = elim a.err [ none ↦ returned a.result | some e ↦ thrown e ]

  unfoldable pub get : AsyncResult T E H → Get T E
  unfolding value_of
  get a = if a.has_result then value_of a else waits

  -- The handlers are given one after the other.
  unfoldable pub when_all_ready : List H → AsyncResult T E H → AsyncResult T E H
  when_all_ready [] a = a
  when_all_ready (h ∷ hs) a = when_all_ready hs (when_ready h a)

-- The last of the handlers, where there is one, and otherwise the one from before.
unfoldable pub last_handler : {H : Type 0} → Option H → List H → Option H
last_handler h [] = h
last_handler h (k ∷ hs) = last_handler (some k) hs

unfoldable pub one_or_none : {H : Type 0} → Option H → List H
one_or_none none = []
one_or_none (some h) = h ∷ []

-- The calls of handlers with a result and its error.
abbrev pub called_with : {T E H : Type 0} → T → Option E → List H → List (H × (Option T × Option E))
called_with r e hs = map (λ h. (h, (some r, e))) hs

module _ {T E H : Type 0} where
  abbrev waiting : Option H → AsyncResult T E H
  waiting h = record { result = none; err = none; has_result = false; handler = h; calls = [] }

  when_all_ready-waiting :
      (h : Option H) (hs : List H) → when_all_ready hs (waiting h) ≡ waiting (last_handler h hs)
  unfolding when_all_ready when_ready last_handler
  when_all_ready-waiting h [] = refl
  when_all_ready-waiting h (k ∷ hs) = when_all_ready-waiting (some k) hs

  module _ (r : T) (e : Option E) where
    abbrev settled : Option H → List (H × (Option T × Option E)) → AsyncResult T E H
    settled h cs = record { result = some r; err = e; has_result = true; handler = h; calls = cs }

    when_all_ready-settled :
        (hs : List H) (h : Option H) (cs : List (H × (Option T × Option E)))
        → when_all_ready hs (settled h cs) ≡ settled h (cs ++ called_with r e hs)
    unfolding when_all_ready when_ready call
    when_all_ready-settled [] h cs = ap (settled h) (sym (append-nil cs))
    when_all_ready-settled (k ∷ hs) h cs =
        when_all_ready-settled hs h (cs ++ ((k, (some r, e)) ∷ []))
        ∙ ap (settled h) (append_assoc cs ((k, (some r, e)) ∷ []) (called_with r e hs))

    set_result-waiting :
        (h : Option H) → set_result r e (waiting h) ≡ settled h (called_with r e (one_or_none h))
    unfolding set_result call_handler call one_or_none
    set_result-waiting none = refl
    set_result-waiting (some h) = refl

    get-settled :
        (h : Option H) (cs : List (H × (Option T × Option E))) → get (settled h cs) ≡ told r e
    unfolding get value_of
    get-settled h cs = elim e [ none ↦ refl | some x ↦ refl ]

    whole :
        (before after : List H)
        → when_all_ready after (set_result r e (when_all_ready before pending))
          ≡ settled
              (last_handler none before)
              (called_with r e (one_or_none (last_handler none before)) ++ called_with r e after)
    unfolding pending
    whole before after =
        ap (λ a. when_all_ready after (set_result r e a)) (when_all_ready-waiting none before)
        ∙ ap (when_all_ready after) (set_result-waiting (last_handler none before))
        ∙ when_all_ready-settled after (last_handler none before)
            (called_with r e (one_or_none (last_handler none before)))

  -- Of the handlers that are given before the result is set, only the last one is called, once; of those
  -- that are given after it, each is called once, in their order. All of them have the result and its
  -- error; and so has, or throws, a `get` after that, while one before waits.
  pub set_result-when_ready :
      (before after : List H) (r : T) (e : Option E)
      → ((when_all_ready after (set_result r e (when_all_ready before pending))).calls
          ≡ called_with r e (one_or_none (last_handler none before)) ++ called_with r e after)
        × ((get (when_all_ready {T = T} {E = E} before pending) ≡ waits)
            × (get (when_all_ready after (set_result r e (when_all_ready before pending)))
                ≡ told r e))
  unfolding pending get
  set_result-when_ready before after r e = (
    ap (λ a. a.calls) (whole r e before after),
    (
      ap get (when_all_ready-waiting none before),
      ap get (whole r e before after)
          ∙ get-settled r e (last_handler none before)
              (called_with r e (one_or_none (last_handler none before)) ++ called_with r e after),
    ),
  )
