-- ===== src/Turns.antt =====
-- internal/server/live.go and the adapter of internal/server/gateway.go: the live turns of a process,
-- the frames that reach them, and the way a turn is started.
pub mod Routing
pub mod Histories
pub mod Ending
pub mod Starting
pub mod Guarding
pub mod Policy
mod Samples
use cubepilot.Prelude.{
  ◌≡◌, Bool, true, false, not, ◌&&◌, ◌||◌, List, [], ◌∷◌, ◌++◌, Option, none, some, Text, utf8,
  is_empty, text_eq, Table, lookup, insert, delete, if◌then◌else◌,
}
use cubepilot.Projection.{Event, Frame, LiveProjector, new_live_projector}
use cubepilot.Projection.Feed.{feed}

-- liveTurn. The sink tells of an event, behind those that it has taken, the error of its write; `ended`
-- is the error and whether the turn was stopped, once done is closed.
pub record LiveTurn : Type 0 where
  pub user : Text
  pub sink : List Event → Event → Option Text
  pub proj : LiveProjector
  pub run_id : Text
  pub sent : List Event
  pub ended : Option (Option Text × Bool)

-- registerLive, its fresh turn.
unfoldable pub fresh_turn : Text → (List Event → Event → Option Text) → LiveTurn
fresh_turn user sink = record {
  user = user;
  sink = sink;
  proj = new_live_projector;
  run_id = [];
  sent = [];
  ended = none;
}

-- liveTurn.acceptRun
unfoldable pub accept_run : LiveTurn → Text → Bool
accept_run t id = is_empty t.run_id || (not (is_empty id) && text_eq t.run_id id)

-- liveTurn.finishWith
unfoldable pub finish_with : Option Text → Bool → LiveTurn → LiveTurn
finish_with err stopped t = elim t.ended [
  | some _ ↦ t
  | none ↦ record t { ended = some (err, stopped) }
]

-- liveTurn.outcome: whether the turn was stopped, and the error.
unfoldable pub outcome : LiveTurn → Bool × Option Text
outcome t = elim t.ended [ none ↦ (false, none) | some (err, stopped) ↦ (stopped, err) ]

-- What chatTerminalOutcome reads of a chat frame.
pub record ChatEnd : Type 0 where
  pub state : Text
  pub error : Text
  pub error_message : Text
  pub stop_reason : Text

-- chatTerminalOutcome, on the payload if it decodes: the error, and whether the turn was stopped.
unfoldable pub chat_terminal_outcome : Option ChatEnd → Option Text × Bool
chat_terminal_outcome none = (none, false)
chat_terminal_outcome (some st) =
    if not (text_eq st.state (utf8 "error")) && not (text_eq st.state (utf8 "aborted"))
    then (none, false)
    else if text_eq st.stop_reason (utf8 "rpc") || text_eq st.stop_reason (utf8 "stop")
    then (none, true)
    else if not (is_empty st.error_message)
    then (some st.error_message, false)
    else if not (is_empty st.error)
    then (some st.error, false)
    else (some (utf8 "agent run " ++ st.state), false)

-- A session-message event of a connection: the header, if the payload decodes, the frame that the
-- projector reads, whether the event is a chat event, and its end.
pub record Broadcast : Type 0 where
  pub decodes : Bool
  pub session_key : Text
  pub run_id : Text
  pub is_chat : Bool
  pub frame : Frame
  pub end : Option ChatEnd

-- routeLive, its loop over the events: the turn, and whether every write succeeded.
unfoldable pub deliver : List Event → LiveTurn → LiveTurn × Bool
unfolding finish_with
deliver [] t = (t, true)
deliver (e ∷ es) t = elim (t.sink t.sent e) [
  | some err ↦ (finish_with (some err) false t, false)
  | none ↦ deliver es (record t { sent = t.sent ++ e ∷ [] })
]

-- routeLive, behind its loop.
unfoldable pub terminate : Broadcast → Bool → LiveTurn × Bool → LiveTurn
unfolding finish_with chat_terminal_outcome
terminate b terminal (t, false) = t
terminate b false (t, true) = t
terminate b true (t, true) =
    let (err, stopped) = if b.is_chat then chat_terminal_outcome b.end else (none, false) in
    finish_with err stopped t

-- routeLive, for the turn that accepts the event.
unfoldable pub project : Broadcast → LiveTurn → LiveTurn
unfolding deliver terminate
project b t =
    let fed = feed b.frame t.proj in
    terminate b fed.0.1 (deliver fed.0.0 (record t { proj = fed.1 }))

-- routeLive, the tests of the turn.
unfoldable pub is_for : Text → Text → LiveTurn → Bool
unfolding accept_run
is_for user run_id t = text_eq t.user user && accept_run t run_id

-- routeLive
unfoldable pub route_live : Text → Broadcast → Table LiveTurn → Table LiveTurn
unfolding is_for project
route_live user b live =
    if not b.decodes || is_empty b.session_key then live else elim (lookup b.session_key live) [
      | none ↦ live
      | some t ↦ if is_for user b.run_id t then insert b.session_key (project b t) live else live
    ]

-- registerLive, and the setRunID that follows it in RunLiveTurn and AttachLiveTurn before the session's
-- messages are subscribed.
unfoldable pub register_live :
    Text → Text → (List Event → Event → Option Text) → Text → Table LiveTurn → Table LiveTurn
unfolding fresh_turn
register_live user key sink run_id live =
    insert key (record (fresh_turn user sink) { run_id = run_id }) live

-- releaseLive
unfoldable pub release_live : Text → Text → Table LiveTurn → Table LiveTurn
release_live user key live = elim (lookup key live) [
  | none ↦ live
  | some cur ↦ if text_eq cur.user user then delete key live else live
]
