-- ===== src/Projection/Samples.antt =====
-- A turn with a command, a question and a search, and the theorems at it.
use cubepilot.Prelude.{
  lookup, insert, text_eq, contains, ◌≤◌, ◌≡◌, refl, List, [], ◌∷◌, ◌++◌, none, some, true, false,
  Text, utf8,
}
use cubepilot.Projection.{
  is_question_tool, is_command_tool, tool_call, tool_result, message_delta, new_live_projector,
  AgentTool, Frame, tool_frame, chat_frame, ToolPhase, tool_start, tool_result_phase, chat_final,
}
use cubepilot.Projection.Feed.{feed, feed_all}
use cubepilot.Projection.Calls.{cards, results}
use cubepilot.Projection.Turns.{feed_all-once, feed-settles}

abbrev tool : ToolPhase → Text → Text → Text → AgentTool
tool f n id r = record {
  phase = f;
  name = n;
  tool_call_id = id;
  args = some (utf8 "{}");
  title = [];
  result_text = r;
  is_error = false;
  error_string = [];
}

abbrev turn : List Frame
turn =
    tool_frame (tool tool_start (utf8 "exec") (utf8 "c1") [])
    ∷ tool_frame (tool tool_start (utf8 "ask_user") (utf8 "c2") [])
    ∷ tool_frame (tool tool_start (utf8 "search") (utf8 "c3") [])
    ∷ tool_frame (tool tool_result_phase (utf8 "exec") (utf8 "c1") (utf8 "early"))
    ∷ tool_frame (tool tool_result_phase (utf8 "ask_user") (utf8 "c2") (utf8 "yes"))
    ∷ tool_frame (tool tool_result_phase (utf8 "search") (utf8 "c3") (utf8 "hit"))
    ∷ tool_frame (tool tool_result_phase (utf8 "search") (utf8 "c3") (utf8 "again"))
    ∷ []

abbrev last : Frame
last = chat_frame (record {
  run_id = utf8 "r";
  state = chat_final;
  delta_text = utf8 "done";
  replace = false;
  message = none;
})

-- The question shows nothing, the search answers at once, the command at the end of the run.
turn_events :
    ((feed_all turn new_live_projector).0
      ≡ tool_call (utf8 "exec") (utf8 "c1") (utf8 "{}")
        ∷ tool_call (utf8 "search") (utf8 "c3") (utf8 "{}")
        ∷ tool_result (utf8 "search") (utf8 "c3") (utf8 "hit")
        ∷ [])
    × ((feed last (feed_all turn new_live_projector).1).0.0
        ≡ tool_result (utf8 "exec") (utf8 "c1") (utf8 "early") ∷ message_delta (utf8 "done") ∷ [])
unfolding feed_all feed lookup insert text_eq is_question_tool is_command_tool contains
turn_events = (refl, refl)

feed_all-once_example :
    (cards (utf8 "c1") (feed_all turn new_live_projector).0 ≤ 1)
    × (results (utf8 "c1") (feed_all turn new_live_projector).0
        ≤ cards (utf8 "c1") (feed_all turn new_live_projector).0)
feed_all-once_example = feed_all-once turn (utf8 "c1")

run_ends : (feed last (feed_all turn new_live_projector).1).0.1 ≡ true
unfolding feed feed_all
run_ends = refl

feed-settles_example :
    results
      (utf8 "c1")
      ((feed_all turn new_live_projector).0 ++ (feed last (feed_all turn new_live_projector).1).0.0)
    ≡ cards (utf8 "c1") (
        (feed_all turn new_live_projector).0
        ++ (feed last (feed_all turn new_live_projector).1).0.0)
feed-settles_example = feed-settles turn last (utf8 "c1") run_ends
