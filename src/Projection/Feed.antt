-- ===== src/Projection/Feed.antt =====
-- feed: what each stream of frames does to a projection, and the turn as a whole.
use cubepilot.Prelude.{
  ℕ, zero, suc, ◌+◌, ◌/◌, ◌%◌, Bool, true, false, not, ◌&&◌, ◌||◌, List, [], ◌∷◌, ◌++◌, none, some,
  Text, utf8, is_empty, text_eq, contains, leb, lookup, if◌then◌else◌,
}
use cubepilot.Projection.{
  is_question_tool, is_command_tool, append, call, put_call, Event, LiveCall, LiveProjector,
  ToolPhase, AgentTool, AgentItem, AgentOutput, ChatDelta, Frame, message_delta, text_replace,
  tool_call, tool_result, narration, tool_start, tool_update, tool_result_phase, tool_other,
  chat_delta, chat_final, chat_aborted, chat_error, chat_other, tool_frame, item_frame,
  output_frame, chat_frame, ignored,
}

-- startCall: whether the start is fresh, and the call
unfoldable pub start_call : Text → Text → LiveProjector → (LiveCall × Bool) × LiveProjector
unfolding call
start_call id name p =
    let (c, q) = call id p in
    let c' = record c {
      started = true;
      saw_output = false;
      name = name;
      suppressed = is_question_tool name || c.suppressed;
    } in
    if c.started
    then ((c, false), q)
    else ((c', true), record (put_call id c' q) { block = q.block + 1 })

-- The card of a start, in toolEvent and in the item stream alike.
unfoldable pub card : Text → Text → Text → LiveProjector → List Event × LiveProjector
unfolding start_call
card id name args p =
    let ((c, fresh), q) = start_call id name p in
    (if not fresh || c.suppressed then [] else tool_call name id args ∷ [], q)

abbrev or_error : AgentTool → Text
or_error t = if t.is_error && is_empty t.result_text then t.error_string else t.result_text

-- toolEvent, a result
unfoldable pub tool_result_event : AgentTool → LiveProjector → List Event × LiveProjector
unfolding call
tool_result_event t p =
    let (c, q) = call t.tool_call_id p in
    if not c.started || c.result_out || c.suppressed
    then ([], q)
    else if is_command_tool c.name
    then ([], put_call t.tool_call_id (record c { pending_result = or_error t }) q)
    else (
      tool_result c.name t.tool_call_id (or_error t) ∷ [],
      put_call t.tool_call_id (record c { result_out = true }) q,
    )

-- toolEvent, by the phase
unfoldable pub phase_event : ToolPhase → AgentTool → LiveProjector → List Event × LiveProjector
unfolding call card tool_result_event
phase_event tool_start t p =
    let args : Text = elim t.args [ some a ↦ a | none ↦ t.title ] in
    card t.tool_call_id t.name args (call t.tool_call_id p).1
phase_event tool_update t p = ([], (call t.tool_call_id p).1)
phase_event tool_result_phase t p = tool_result_event t p
phase_event tool_other t p = ([], (call t.tool_call_id p).1)

-- toolEvent
unfoldable pub tool_event : AgentTool → LiveProjector → List Event × LiveProjector
unfolding phase_event
tool_event t p = if is_empty t.tool_call_id then ([], p) else phase_event t.phase t p

-- strconv.Itoa of a number that is not negative. Each round drops a digit.
itoa_loop : ℕ → ℕ → Text → Text
itoa_loop zero n acc = acc
itoa_loop (suc f) n acc =
    let acc' : Text = (b'0' + n % 10) ∷ acc in
    let rest = itoa_loop f (n / 10) acc' in if leb n 9 then acc' else rest

unfoldable pub itoa : ℕ → Text
unfolding itoa_loop
itoa n = itoa_loop (suc n) n []

-- preambleEvent
unfoldable pub preamble_event : AgentItem → LiveProjector → List Event
unfolding itoa
preamble_event it p =
    if is_empty it.normal_text
    then []
    else narration (if is_empty it.item_id then itoa p.block else it.item_id) it.normal_text ∷ []

-- The item stream.
unfoldable pub item_event : AgentItem → LiveProjector → List Event × LiveProjector
unfolding card preamble_event
item_event it p =
    if text_eq it.kind (utf8 "preamble")
    then (preamble_event it p, p)
    else if is_empty it.tool_call_id
    then ([], p)
    else if text_eq it.kind (utf8 "tool") && text_eq it.phase (utf8 "start")
    then card it.tool_call_id it.name (if is_empty it.meta then it.title else it.meta) p
    else ([], p)

-- The call of a command_output frame after its output.
unfoldable pub with_output : AgentOutput → LiveCall → LiveCall
unfolding append
with_output o c = record c {
  saw_output = true;
  output =
      if text_eq o.phase (utf8 "end") && not (is_empty o.output)
      then o.output
      else if not (is_empty o.output)
      then append c.output o.output
      else c.output;
}

-- The command_output stream.
unfoldable pub output_event : AgentOutput → LiveProjector → List Event × LiveProjector
unfolding call with_output
output_event o p =
    let (c, q) = call o.tool_call_id p in
    let c' = with_output o c in
    if is_empty o.tool_call_id
    then ([], p)
    else if not c.started
    then ([], q)
    else if text_eq o.phase (utf8 "end") && not c.result_out && not c.suppressed
    then (
      tool_result c.name o.tool_call_id (if is_empty c'.output then o.summary else c'.output) ∷ [],
      put_call o.tool_call_id (record c' { result_out = true }) q,
    )
    else ([], put_call o.tool_call_id c' q)

-- One round of finalizeAll.
unfoldable pub settle : Text → LiveProjector → List Event × LiveProjector
settle id p = elim (lookup id p.calls) [
  | none ↦ ([], p)
  | some c ↦ if not c.started || c.result_out || c.suppressed then ([], p) else (
    tool_result c.name id (if is_empty c.pending_result then c.output else c.pending_result) ∷ [],
    put_call id (record c { result_out = true }) p,
  )
]

-- finalizeAll, over the rest of the order
unfoldable pub finalize : List Text → LiveProjector → List Event × LiveProjector
unfolding settle
finalize [] p = ([], p)
finalize (id ∷ ids) p =
    let (es, q) = settle id p in let (rest, r) = finalize ids q in (es ++ rest, r)

unfoldable pub finalize_all : LiveProjector → List Event × LiveProjector
unfolding finalize
finalize_all p = finalize p.order p

-- The text of a message: its parts of type text.
unfoldable pub message_text : List (Text × Text) → Text
message_text [] = []
message_text ((type, text) ∷ parts) =
    let rest = message_text parts in if text_eq type (utf8 "text") then text ++ rest else rest

abbrev pub final_text : ChatDelta → Text
final_text d =
    if is_empty d.delta_text
    then elim d.message [ none ↦ [] | some m ↦ message_text m ]
    else d.delta_text

-- p.texts[run] = true
abbrev pub mark_text : Text → LiveProjector → LiveProjector
mark_text run p = record p { texts = run ∷ p.texts }

-- The chat event: the events, and whether the run ends.
unfoldable pub chat_event : ChatDelta → LiveProjector → (List Event × Bool) × LiveProjector
unfolding finalize_all
chat_event d p = elim d.state [
  | chat_delta ↦ if is_empty d.delta_text then (([], false), p) else (
    ((if d.replace then text_replace d.delta_text else message_delta d.delta_text) ∷ [], false),
    mark_text d.run_id p,
  )
  | chat_final ↦
      let fresh = not (contains p.texts d.run_id) && not (is_empty (final_text d)) in
      let (flush, q) = finalize_all (if fresh then mark_text d.run_id p else p) in
      ((flush ++ (if fresh then message_delta (final_text d) ∷ [] else []), true), q)
  | chat_aborted ↦ let (flush, q) = finalize_all p in ((flush, true), q)
  | chat_error ↦ let (flush, q) = finalize_all p in ((flush, true), q)
  | chat_other ↦ (([], false), p)
]

-- The frames of an agent event, which never end the run.
abbrev going : List Event × LiveProjector → (List Event × Bool) × LiveProjector
going (es, p) = ((es, false), p)

-- feed
unfoldable pub feed : Frame → LiveProjector → (List Event × Bool) × LiveProjector
unfolding tool_event item_event output_event chat_event
feed (tool_frame t) p = going (tool_event t p)
feed (item_frame it) p = going (item_event it p)
feed (output_frame o) p = going (output_event o p)
feed (chat_frame d) p = chat_event d p
feed ignored p = (([], false), p)

-- A turn: the frames one after another, with all that they emitted.
unfoldable pub feed_all : List Frame → LiveProjector → List Event × LiveProjector
unfolding feed
feed_all [] p = ([], p)
feed_all (f ∷ fs) p =
    let ((es, _), q) = feed f p in let (rest, r) = feed_all fs q in (es ++ rest, r)
