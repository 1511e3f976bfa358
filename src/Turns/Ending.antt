-- ===== src/Turns/Ending.antt =====
-- The end of a live turn of internal/server/live.go: which event makes its outcome.
use cubepilot.Prelude.{
  ◌≡◌, refl, ap, sym, ◌∙◌, Bool, true, false, ◌&&◌, List, [], ◌∷◌, ◌++◌, Option, none, some, Text,
  is_empty, text_eq_refl, Table, lookup, lookup-insert, if◌then◌else◌, All, arith, inl, inr,
  Option-cases, if_elim, subst, not, ◌||◌, utf8, text_eq, text_eq_iff, text_eq-ne, text_eq_cases,
  ◌≢◌, ◌⊎◌, Bool-cases,
}
use cubepilot.Projection.{
  Event, Frame, LiveProjector, tool_frame, item_frame, output_frame, chat_frame, ignored, ChatState,
  chat_delta, chat_final, chat_aborted, chat_error, chat_other,
}
use cubepilot.Projection.Feed.{feed, chat_event}
use cubepilot.Turns.{
  ChatEnd, LiveTurn, fresh_turn, finish_with, Broadcast, chat_terminal_outcome, deliver, terminate,
  project, register_live,
}
use cubepilot.Turns.Routing.{happen-alone}
use cubepilot.Turns.Histories.{Happening, hears, registers, releases, happen, Lasts, is_own, alone}

-- The frames that end a run.
unfoldable pub is_terminal : Frame → Bool
is_terminal (tool_frame x) = false
is_terminal (item_frame x) = false
is_terminal (output_frame x) = false
is_terminal ignored = false
is_terminal (chat_frame d) = elim d.state [
  | chat_delta ↦ false
  | chat_final ↦ true
  | chat_aborted ↦ true
  | chat_error ↦ true
  | chat_other ↦ false
]

feed-is_terminal : (f : Frame) (p : LiveProjector) → (feed f p).0.1 ≡ is_terminal f
unfolding feed is_terminal
feed-is_terminal (tool_frame x) p = refl
feed-is_terminal (item_frame x) p = refl
feed-is_terminal (output_frame x) p = refl
feed-is_terminal ignored p = refl
feed-is_terminal (chat_frame d) p = by_state d.state refl
  where
    by_state : (s : ChatState) → d.state ≡ s → (chat_event d p).0.1 ≡ is_terminal (chat_frame d)
    by_state chat_delta e =
        rw (e, chat_event)
          (if_elim {A = (List Event × Bool) × LiveProjector} (λ z. z.0.1 ≡ false)
            (is_empty d.delta_text) _ _ (λ _. refl) (λ _. refl))
    by_state chat_final e = rw (e, chat_event) refl
    by_state chat_aborted e = rw (e, chat_event) refl
    by_state chat_error e = rw (e, chat_event) refl
    by_state chat_other e = rw (e, chat_event) refl

-- The end that an event makes of a turn that has not ended.
abbrev pub end_of : Broadcast → Option Text × Bool
end_of b = if b.is_chat then chat_terminal_outcome b.end else (none, false)

-- The end that the first of its own terminal events makes.
unfoldable pub first_end : Text → Text → Text → List Happening → Option (Option Text × Bool)
first_end user key run [] = none
first_end user key run (hears u b ∷ hs) =
    let rest = first_end user key run hs in
    if is_own user key run u b && is_terminal b.frame then some (end_of b) else rest
first_end user key run (registers u k sink id ∷ hs) = first_end user key run hs
first_end user key run (releases u k ∷ hs) = first_end user key run hs

abbrev or_end :
    Option (Option Text × Bool) → Option (Option Text × Bool) → Option (Option Text × Bool)
or_end o later = elim o [ some e ↦ some e | none ↦ later ]

-- A turn whose browser takes every event.
abbrev pub IsAttached : LiveTurn → Type 0
IsAttached t = (es : List Event) (e : Event) → t.sink es e ≡ none

deliver-attached :
    (es : List Event) (t : LiveTurn)
    → IsAttached t
    → ((deliver es t).1 ≡ true)
      × ((deliver es t).0.ended ≡ t.ended)
      × ((deliver es t).0.sink ≡ t.sink)
unfolding deliver
deliver-attached [] t a = (refl, refl, refl)
deliver-attached (e ∷ es) t a =
    rw (a t.sent e, deliver) (deliver-attached es (record t { sent = t.sent ++ e ∷ [] }) a)

finish_with-ended :
    (e : Option Text × Bool) (t : LiveTurn)
    → ((finish_with e.0 e.1 t).ended ≡ or_end t.ended (some e))
      × ((finish_with e.0 e.1 t).sink ≡ t.sink)
unfolding finish_with
finish_with-ended e t = elim (Option-cases t.ended) [
  | inl o ↦ rw (o, finish_with) (refl, refl)
  | inr (d, o) ↦ rw (o, finish_with) (o, refl)
]

or_end-none : (o : Option (Option Text × Bool)) → or_end o none ≡ o
or_end-none none = refl
or_end-none (some e) = refl

or_end-some :
    (o : Option (Option Text × Bool)) (e : Option Text × Bool) (later : Option (Option Text × Bool))
    → or_end (or_end o (some e)) later ≡ or_end o (some e)
or_end-some none e later = refl
or_end-some (some d) e later = refl

terminate-ended :
    (b : Broadcast) (terminal : Bool) (z : LiveTurn × Bool)
    → z.1 ≡ true
    → ((terminate b terminal z).ended
        ≡ (if terminal then or_end z.0.ended (some (end_of b)) else z.0.ended))
      × ((terminate b terminal z).sink ≡ z.0.sink)
unfolding terminate
terminate-ended b terminal (t, false) h = absurd (ground (arith, h))
terminate-ended b false (t, true) h = (refl, refl)
terminate-ended b true (t, true) h = finish_with-ended (end_of b) t

project-ended :
    (b : Broadcast) (t : LiveTurn)
    → IsAttached t
    → ((project b t).ended
        ≡ (if is_terminal b.frame then or_end t.ended (some (end_of b)) else t.ended))
      × ((project b t).sink ≡ t.sink)
unfolding project
project-ended b t a =
    let fed = feed b.frame t.proj in
    let d = deliver-attached fed.0.0 (record t { proj = fed.1 }) a in
    let e = terminate-ended b fed.0.1 (deliver fed.0.0 (record t { proj = fed.1 })) d.0 in
    (
      e.0
          ∙ ap (λ z. if fed.0.1 then or_end z (some (end_of b)) else z) d.1
          ∙ ap (λ z. if z then or_end t.ended (some (end_of b)) else t.ended)
              (feed-is_terminal b.frame t.proj),
      e.1 ∙ d.2,
    )

alone-ended :
    (user key run : Text) (hs : List Happening) (t : LiveTurn)
    → IsAttached t
    → (alone user key run hs t).ended ≡ or_end t.ended (first_end user key run hs)
unfolding alone first_end
alone-ended user key run [] t a = sym (or_end-none t.ended)
alone-ended user key run (registers u k sink id ∷ hs) t a = alone-ended user key run hs t a
alone-ended user key run (releases u k ∷ hs) t a = alone-ended user key run hs t a
alone-ended user key run (hears u b ∷ hs) t a =
    step (is_own user key run u b) (is_terminal b.frame) refl
      (λ t' a'. alone-ended user key run hs t' a')
  where
    later : Option (Option Text × Bool)
    later = first_end user key run hs

    attached : IsAttached (project b t)
    attached = λ es e. ap (λ s. s es e) (project-ended b t a).1 ∙ a es e

    ended :
        (terminal : Bool)
        → is_terminal b.frame ≡ terminal
        → (project b t).ended ≡ (if terminal then or_end t.ended (some (end_of b)) else t.ended)
    ended terminal e =
        (project-ended b t a).0
        ∙ ap (λ z. if z then or_end t.ended (some (end_of b)) else t.ended) e

    step :
        (c terminal : Bool)
        → is_terminal b.frame ≡ terminal
        → ((t' : LiveTurn)
            → IsAttached t'
            → (alone user key run hs t').ended ≡ or_end t'.ended (first_end user key run hs))
        → (alone user key run hs (if c then project b t else t)).ended
          ≡ or_end t.ended (if c && terminal then some (end_of b) else first_end user key run hs)
    step false terminal e ih = ih t a
    step true false e ih = ih (project b t) attached ∙ ap (λ z. or_end z later) (ended false e)
    step true true e ih =
        ih (project b t) attached
        ∙ ap (λ z. or_end z later) (ended true e)
        ∙ or_end-some t.ended (end_of b) later

-- The message of a failed run: the gateway's, else its error, else one that names the state.
pub data FailureText (st : ChatEnd) : Text → Type 0 where
  told : is_empty st.error_message ≡ false → FailureText st st.error_message
  coded : st.error_message ≡ [] → is_empty st.error ≡ false → FailureText st st.error
  named : st.error_message ≡ [] → st.error ≡ [] → FailureText st (utf8 "agent run " ++ st.state)

-- The end that a terminal event makes of a turn: the error, and whether the turn was stopped.
pub data EndSpec (b : Broadcast) : Option Text × Bool → Type 0 where
  unchatted : b.is_chat ≡ false → EndSpec b (none, false)
  undecoded : b.end ≡ none → EndSpec b (none, false)
  done :
      (st : ChatEnd)
      → b.end ≡ some st
      → st.state ≢ utf8 "error"
      → st.state ≢ utf8 "aborted"
      → EndSpec b (none, false)
  stopped :
      (st : ChatEnd)
      → b.is_chat ≡ true
      → b.end ≡ some st
      → (st.state ≡ utf8 "error") ⊎ (st.state ≡ utf8 "aborted")
      → (st.stop_reason ≡ utf8 "rpc") ⊎ (st.stop_reason ≡ utf8 "stop")
      → EndSpec b (none, true)
  failed :
      (st : ChatEnd) (message : Text)
      → b.is_chat ≡ true
      → b.end ≡ some st
      → (st.state ≡ utf8 "error") ⊎ (st.state ≡ utf8 "aborted")
      → st.stop_reason ≢ utf8 "rpc"
      → st.stop_reason ≢ utf8 "stop"
      → FailureText st message
      → EndSpec b (some message, false)

either : (x a b : Text) → (not (text_eq x a) && not (text_eq x b)) ≡ false → (x ≡ a) ⊎ (x ≡ b)
either x a b h = elim (text_eq_cases x a) [
  | inl (e, _) ↦ inl e
  | inr (_, f) ↦ inr ((text_eq_iff x b).0 (ground (arith, h, f)))
]

one_of : (x a b : Text) → (text_eq x a || text_eq x b) ≡ true → (x ≡ a) ⊎ (x ≡ b)
one_of x a b h = elim (text_eq_cases x a) [
  | inl (e, _) ↦ inl e
  | inr (_, f) ↦ inr ((text_eq_iff x b).0 (ground (arith, h, f)))
]

filled-nil : (t : Text) → is_empty t ≡ true → t ≡ []
filled-nil [] h = refl
filled-nil (c ∷ t) h = absurd (ground (arith, h))

chat_terminal_outcome-EndSpec :
    (b : Broadcast) (o : Option ChatEnd)
    → b.is_chat ≡ true
    → b.end ≡ o
    → EndSpec b (chat_terminal_outcome o)
unfolding chat_terminal_outcome
chat_terminal_outcome-EndSpec b none c q = undecoded q
chat_terminal_outcome-EndSpec b (some st) c q =
    let E : Option Text × Bool → Type 0 = EndSpec b in
    if_elim E (not (text_eq st.state (utf8 "error")) && not (text_eq st.state (utf8 "aborted"))) _ _
      (λ h. done st q (text_eq-ne _ _ (ground (arith, h))) (text_eq-ne _ _ (ground (arith, h))))
      (λ h.
        let ill = either st.state (utf8 "error") (utf8 "aborted") h in
        if_elim E (text_eq st.stop_reason (utf8 "rpc") || text_eq st.stop_reason (utf8 "stop")) _ _
          (λ k. stopped st c q ill (one_of _ _ _ k))
          (λ k.
            let fails : (m : Text) → FailureText st m → E (some m, false) = λ m.
              failed st m c q ill (text_eq-ne _ _ (ground (arith, k)))
                (text_eq-ne _ _ (ground (arith, k))) in
            if_elim E (not (is_empty st.error_message)) _ _
              (λ l. fails st.error_message (told (ground (arith, l))))
              (λ l.
                let none_told = filled-nil st.error_message (ground (arith, l)) in
                if_elim E (not (is_empty st.error)) _ _
                  (λ m. fails st.error (coded none_told (ground (arith, m))))
                  (λ m.
                    fails (utf8 "agent run " ++ st.state)
                      (named none_told (filled-nil st.error (ground (arith, m))))))))

end_of-EndSpec : (b : Broadcast) → EndSpec b (end_of b)
end_of-EndSpec b =
    if_elim (EndSpec b) b.is_chat _ _ (λ c. chat_terminal_outcome-EndSpec b b.end c refl)
      (λ c. unchatted c)

-- The first of a turn's own events that ends its run.
unfoldable pub first_terminal : Text → Text → Text → List Happening → Option Broadcast
first_terminal user key run [] = none
first_terminal user key run (hears u b ∷ hs) =
    let rest = first_terminal user key run hs in
    if is_own user key run u b && is_terminal b.frame then some b else rest
first_terminal user key run (registers u k sink id ∷ hs) = first_terminal user key run hs
first_terminal user key run (releases u k ∷ hs) = first_terminal user key run hs

-- The end of a turn, by the event that has ended its run, if one has.
abbrev pub EndedBy : Option Broadcast → Option (Option Text × Bool) → Type 0
EndedBy none o = o ≡ none
EndedBy (some b) o = (e : Option Text × Bool) × (o ≡ some e) × EndSpec b e

first_end-EndedBy :
    (user key run : Text) (hs : List Happening)
    → EndedBy (first_terminal user key run hs) (first_end user key run hs)
unfolding first_end first_terminal
first_end-EndedBy user key run [] = refl
first_end-EndedBy user key run (hears u b ∷ hs) =
    elim (Bool-cases (is_own user key run u b && is_terminal b.frame)) [
      | inl t ↦ rw t (end_of b, refl, end_of-EndSpec b)
      | inr f ↦ rw f (first_end-EndedBy user key run hs)
    ]
first_end-EndedBy user key run (registers u k sink id ∷ hs) = first_end-EndedBy user key run hs
first_end-EndedBy user key run (releases u k ∷ hs) = first_end-EndedBy user key run hs

-- A turn whose browser takes every event ends with its own first terminal event, as that tells, and not
-- before: a stop that was asked for is an outcome and no failure, another abort or an error is a failure
-- with the gateway's message, or one that names the state, any other event ends it without a failure, and
-- nothing that comes later, of whatever run, session or user, changes it.
pub happen-ended :
    (user key run : Text) (sink : List Event → Event → Option Text) (hs : List Happening)
    (live : Table LiveTurn)
    → is_empty key ≡ false
    → is_empty run ≡ false
    → ((es : List Event) (e : Event) → sink es e ≡ none)
    → All (Lasts user key) hs
    → (t : LiveTurn) × (lookup key (happen hs (register_live user key sink run live)) ≡ some t)
      × EndedBy (first_terminal user key run hs) t.ended
unfolding register_live fresh_turn
happen-ended user key run sink hs live nk nr a l =
    let t = record (fresh_turn user sink) { run_id = run } in
    (
      alone user key run hs t,
      happen-alone user key run hs (register_live user key sink run live) t nk nr refl refl
          (lookup-insert key key t live ∙ rw (text_eq_refl key) refl) l,
      subst (EndedBy (first_terminal user key run hs)) (sym (alone-ended user key run hs t a))
          (first_end-EndedBy user key run hs),
    )
