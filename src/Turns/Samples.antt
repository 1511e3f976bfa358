-- ===== src/Turns/Samples.antt =====
-- A turn that hears a foreign and its own end, and one that is started guarded in a session which was
-- not; the theorems at them.
use cubepilot.Prelude.{
  ◌≡◌, refl, true, false, List, [], ◌∷◌, Option, none, some, Text, utf8, text_eq, lookup,
}
use cubepilot.Allowlist.{AllowlistRule}
use cubepilot.Projection.{new_live_projector, Event, chat_frame, chat_error}
use cubepilot.Turns.{LiveTurn, Broadcast, chat_terminal_outcome, register_live}
use cubepilot.Turns.Routing.{happen-alone}
use cubepilot.Turns.Histories.{Happening, hears, happen, alone, is_own}
use cubepilot.Turns.Ending.{is_terminal, first_end, EndedBy, first_terminal, happen-ended}
use cubepilot.Turns.Starting.{SessionState, patched, Channel, run_turn}
use cubepilot.Approvals.Gating
use cubepilot.Approvals.Gating.{policy_always_ask}
use cubepilot.Turns.Guarding.{IsPatching}
use cubepilot.Turns.Policy.{GuardSpec, run_turn-GuardSpec}

abbrev chat : Text
chat = utf8 "agent:main:chat"

abbrev end_frame : Text → Text → Broadcast
end_frame run reason = record {
  decodes = true;
  session_key = chat;
  run_id = run;
  is_chat = true;
  frame = chat_frame (record {
    run_id = run;
    state = chat_error;
    delta_text = [];
    replace = false;
    message = none;
  });
  end =
      some
        (record { state = utf8 "aborted"; error = []; error_message = []; stop_reason = reason });
}

-- Another run of the session fails first, then the own run is stopped.
abbrev heard : List Happening
heard =
    hears (utf8 "ann") (end_frame (utf8 "r0") (utf8 "timeout"))
    ∷ hears (utf8 "bob") (end_frame (utf8 "r1") (utf8 "timeout"))
    ∷ hears (utf8 "ann") (end_frame (utf8 "r1") (utf8 "rpc"))
    ∷ hears (utf8 "ann") (end_frame (utf8 "r1") (utf8 "timeout"))
    ∷ []

abbrev takes_all : List Event → Event → Option Text
takes_all es e = none

happen-ended_example :
    (t : LiveTurn) × (lookup chat
        (happen heard (register_live (utf8 "ann") chat takes_all (utf8 "r1") []))
      ≡ some t)
    × EndedBy (first_terminal (utf8 "ann") chat (utf8 "r1") heard) t.ended
happen-ended_example =
    happen-ended (utf8 "ann") chat (utf8 "r1") takes_all heard [] refl refl (λ es e. refl)
      (tt, (tt, (tt, (tt, tt))))

was_stopped : first_end (utf8 "ann") chat (utf8 "r1") heard ≡ some (none, true)
unfolding first_end is_own is_terminal chat_terminal_outcome text_eq
was_stopped = refl

abbrev turn : LiveTurn
turn = record {
  user = utf8 "ann";
  sink = takes_all;
  proj = new_live_projector;
  run_id = utf8 "r1";
  sent = [];
  ended = none;
}

registered : lookup chat ((chat, turn) ∷ []) ≡ some turn
unfolding lookup text_eq
registered = refl

happen-alone_example :
    lookup chat (happen heard ((chat, turn) ∷ []))
    ≡ some (alone (utf8 "ann") chat (utf8 "r1") heard turn)
happen-alone_example =
    happen-alone (utf8 "ann") chat (utf8 "r1") heard ((chat, turn) ∷ []) turn refl refl refl refl
      registered (tt, (tt, (tt, (tt, tt))))

-- The world is the session's settings.
abbrev channel : Channel SessionState
channel = record {
  conn = λ w. (true, w);
  create_session = λ key w. (some w, w);
  patch_session_settings = λ key p w. (true, patched p w);
  subscribe = λ key w. (true, w);
  send = λ key message idem w. (some (utf8 "r1"), w);
}

abbrev settings : Text → SessionState → SessionState
settings key w = w

honest : IsPatching channel settings
honest = record {
  created = λ key s w w' e. cc;
  patches = λ key p w w' e. cc;
  subscribed = λ key b w w' e. cc;
}

abbrev policies : Gating.Gateway SessionState
policies = record { get = λ w. (none, w); set = λ f h w. (true, w); pause = λ w. (true, w) }

abbrev resolved : Option (Text × (List AllowlistRule × Text))
resolved = some (policy_always_ask, ([], []))

abbrev before : SessionState
before = record { model = utf8 "old"; permission_mode = [] }

run_turn-GuardSpec_example :
    GuardSpec channel settings resolved chat (utf8 "hello") (utf8 "k1") (utf8 "new") (
      run_turn channel policies resolved true
        (utf8 "ann")
        []
        chat
        (utf8 "hello")
        (utf8 "k1")
        (utf8 "new")
        before)
run_turn-GuardSpec_example =
    run_turn-GuardSpec channel settings policies resolved true (utf8 "ann") [] chat (utf8 "hello")
      (utf8 "k1") (utf8 "new") before honest
