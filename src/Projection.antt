-- ===== src/Projection.antt =====
-- internal/server/livetools.go: the projection of one chat turn. The frames of the gateway come in
-- decoded; what the decoders of JSON and of regular expressions give is a field of the frame.
pub mod Feed
pub mod Calls
pub mod Turns
mod Samples
use cubepilot.Prelude.{
  ℕ, zero, suc, ◌+◌, ◌-◌, ◌*◌, ◌/◌, ◌%◌, Bool, true, false, not, ◌&&◌, ◌||◌, List, [], ◌∷◌, ◌++◌,
  Option, none, some, Text, utf8, is_empty, text_eq, contains, leb, ltb, length, take, drop, Table,
  lookup, insert, if◌then◌else◌,
}

-- liveOutputCap
abbrev pub live_output_cap : ℕ
live_output_cap = 1024 * 1024

-- The events of the chat stream that a projection emits, with the fields that it sets; the session
-- key, which is that of the turn in each, is left out.
pub data Event : Type 0 where
  message_delta : Text → Event
  text_replace : Text → Event
  tool_call : Text → Text → Text → Event
  tool_result : Text → Text → Text → Event
  narration : Text → Text → Event

-- liveCall
pub record LiveCall : Type 0 where
  pub started : Bool
  pub name : Text
  pub saw_output : Bool
  pub suppressed : Bool
  pub output : Text
  pub pending_result : Text
  pub result_out : Bool

abbrev pub fresh_call : LiveCall
fresh_call = record {
  started = false;
  name = [];
  saw_output = false;
  suppressed = false;
  output = [];
  pending_result = [];
  result_out = false;
}

-- liveProjector
pub record LiveProjector : Type 0 where
  pub calls : Table LiveCall
  pub order : List Text
  pub texts : List Text
  pub block : ℕ

-- newLiveProjector
abbrev pub new_live_projector : LiveProjector
new_live_projector = record { calls = []; order = []; texts = []; block = 1 }

-- The phases of a tool frame.
pub data ToolPhase : Type 0 where
  tool_start tool_update tool_result_phase tool_other : ToolPhase

-- agentTool. `args` is none where the source has no bytes or null there, and
-- `result_text` is toolResultText of the result.
pub record AgentTool : Type 0 where
  pub phase : ToolPhase
  pub name : Text
  pub tool_call_id : Text
  pub args : Option Text
  pub title : Text
  pub result_text : Text
  pub is_error : Bool
  pub error_string : Text

-- agentItem. `normal_text` is normalizePreamble of the progress text.
pub record AgentItem : Type 0 where
  pub kind : Text
  pub phase : Text
  pub name : Text
  pub meta : Text
  pub title : Text
  pub tool_call_id : Text
  pub normal_text : Text
  pub item_id : Text

-- agentOutput
pub record AgentOutput : Type 0 where
  pub phase : Text
  pub tool_call_id : Text
  pub output : Text
  pub summary : Text

-- The states of a chat frame.
pub data ChatState : Type 0 where
  chat_delta chat_final chat_aborted chat_error chat_other : ChatState

-- chatDelta; the content of its message is a list of pairs of type and text.
pub record ChatDelta : Type 0 where
  pub run_id : Text
  pub state : ChatState
  pub delta_text : Text
  pub replace : Bool
  pub message : Option (List (Text × Text))

-- A frame that feed was given: `ignored` is one of another name or stream, or one that does not
-- decode.
pub data Frame : Type 0 where
  tool_frame : AgentTool → Frame
  item_frame : AgentItem → Frame
  output_frame : AgentOutput → Frame
  chat_frame : ChatDelta → Frame
  ignored : Frame

-- strings.HasSuffix
abbrev has_suffix : Text → Text → Bool
has_suffix s suffix =
    leb (length suffix) (length s) && text_eq (drop (length s - length suffix) s) suffix

-- isQuestionTool
unfoldable pub is_question_tool : Text → Bool
is_question_tool name = text_eq name (utf8 "ask_user")

-- isCommandTool
unfoldable pub is_command_tool : Text → Bool
is_command_tool name =
    not (is_empty name)
    && (text_eq name (utf8 "exec") || text_eq name (utf8 "bash") || has_suffix name (utf8 "-exec"))

-- liveCall.append, on the output
unfoldable pub append : Text → Text → Text
append output s =
    if leb live_output_cap (length output)
    then output
    else if ltb live_output_cap (length output + length s)
    then output ++ take (live_output_cap - length output) s
    else output ++ s

-- liveProjector.call
unfoldable pub call : Text → LiveProjector → LiveCall × LiveProjector
call id p = elim (lookup id p.calls) [
  | some c ↦ (c, p)
  | none ↦
      (fresh_call, record p { calls = insert id fresh_call p.calls; order = p.order ++ id ∷ [] })
]

-- A write through the pointer that `call` gave.
abbrev pub put_call : Text → LiveCall → LiveProjector → LiveProjector
put_call id c p = record p { calls = insert id c p.calls }
