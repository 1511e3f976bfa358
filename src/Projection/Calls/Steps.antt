-- ===== src/Projection/Calls/Steps.antt =====
-- The handlers of a projection keep its calls in agreement with the events.
use cubepilot.Prelude.{
  ◌≡◌, refl, sym, Bool, true, false, not, ◌&&◌, List, [], ◌∷◌, ◌++◌, Text, utf8, is_empty, text_eq,
  lookup, Table, if◌then◌else◌, append_assoc, Bool-cases, Option-cases, ◌⊎◌, inl, inr, arith,
}
use cubepilot.Projection.{
  message_delta, text_replace, ChatState, ToolPhase, Event, LiveCall, LiveProjector, AgentTool,
  AgentItem, AgentOutput, ChatDelta, Frame, call, tool_start, tool_update, tool_result_phase,
  tool_other, chat_delta, chat_final, chat_aborted, chat_error, chat_other, tool_frame, item_frame,
  output_frame, chat_frame, ignored, is_command_tool,
}
use cubepilot.Projection.Feed.{
  mark_text, final_text, phase_event, start_call, card, tool_result_event, tool_event, item_event,
  preamble_event, output_event, with_output, settle, finalize, finalize_all, chat_event, feed,
  feed_all,
}
use cubepilot.Projection.Calls.{Inv, cards, results, call-Inv, cards-append, results-append}
use cubepilot.Projection.Calls.Writes.{still, quiet-Inv, result-Inv, start-Inv}

-- What a handler has to keep: the agreement goes on with the events that it adds.
abbrev pub Keeps : LiveProjector → List Event × LiveProjector → Type 0
Keeps p (new, q) = (es : List Event) → Inv p.calls p.order es → Inv q.calls q.order (es ++ new)

-- Events without cards and results.
pub record Silent (new : List Event) : Type 0 where
  pub no_cards : (id : Text) → cards id new ≡ 0
  pub no_results : (id : Text) → results id new ≡ 0

pub Silent-Inv :
    (new : List Event) (m : Table LiveCall) (order : List Text) (es : List Event)
    → Silent new
    → Inv m order es
    → Inv m order (es ++ new)
Silent-Inv new m order es n i = record {
  tracks = λ id.
      rw (cards-append id es new, results-append id es new, n.no_cards id, n.no_results id)
        (let t = i.tracks id in
          record {
            shown = omega (arith, t.shown);
            answered = omega (arith, t.answered);
            legal = t.legal;
          });
  listed = i.listed;
}

preamble-Silent : (it : AgentItem) (p : LiveProjector) → Silent (preamble_event it p)
unfolding preamble_event cards results
preamble-Silent it p = elim (Bool-cases (is_empty it.normal_text)) [
  | inl e ↦ rw e (record { no_cards = λ id. refl; no_results = λ id. refl })
  | inr e ↦ rw e (record { no_cards = λ id. refl; no_results = λ id. refl })
]

output_cases :
    (f r u : Bool) → ((f ≡ true) × (r ≡ false) × (u ≡ false)) ⊎ ((f && not r && not u) ≡ false)
output_cases f r u = ground arith

card-Keeps : (id n a : Text) (p : LiveProjector) → Keeps p (card id n a p)
unfolding card start_call
card-Keeps id n a p es i =
    let (j, e) = call-Inv id p es i in
    elim (Bool-cases (call id p).0.started) [
      | inl s ↦ rw s (still es j)
      | inr s ↦ rw s (
          start-Inv id n a (call id p).0 _ _ (call id p).1.calls (call id p).1.order es j e s refl
            refl refl)
    ]

tool_result_event-Keeps : (t : AgentTool) (p : LiveProjector) → Keeps p (tool_result_event t p)
unfolding tool_result_event
tool_result_event-Keeps t p es i =
    let id = t.tool_call_id in
    let (c, q) = call id p in
    let (j, e) = call-Inv id p es i in
    elim (Bool-cases c.started) [
      | inr s ↦ rw s (still es j)
      | inl s ↦ elim (Bool-cases c.result_out) [
        | inl r ↦ rw (s, r) (still es j)
        | inr r ↦ elim (Bool-cases c.suppressed) [
          | inl u ↦ rw (s, r, u) (still es j)
          | inr u ↦ elim (Bool-cases (is_command_tool c.name)) [
            | inl k ↦
                rw (s, r, u, k) (quiet-Inv id c _ q.calls q.order es j e (sym s) (sym u) (sym r))
            | inr k ↦
                rw (s, r, u, k)
                  (result-Inv id _ _ c _ q.calls q.order es j e s u r (sym s) (sym u) refl)
          ]
        ]
      ]
    ]

pub tool_event-Keeps : (t : AgentTool) (p : LiveProjector) → Keeps p (tool_event t p)
unfolding tool_event
tool_event-Keeps t p es i = elim (Bool-cases (is_empty t.tool_call_id)) [
  | inl b ↦ rw b (still es i)
  | inr b ↦ rw b (by_phase t.phase)
]
  where
    j : Inv (call t.tool_call_id p).1.calls (call t.tool_call_id p).1.order es
    j = (call-Inv t.tool_call_id p es i).0

    by_phase :
        (f : ToolPhase)
        → Inv (phase_event f t p).1.calls (phase_event f t p).1.order (es ++ (phase_event f t p).0)
    by_phase tool_start = card-Keeps _ _ _ (call t.tool_call_id p).1 es j
    by_phase tool_update = still es j
    by_phase tool_result_phase = tool_result_event-Keeps t p es i
    by_phase tool_other = still es j

pub item_event-Keeps : (it : AgentItem) (p : LiveProjector) → Keeps p (item_event it p)
unfolding item_event
item_event-Keeps it p es i = elim (Bool-cases (text_eq it.kind (utf8 "preamble"))) [
  | inl b ↦ rw b (Silent-Inv (preamble_event it p) p.calls p.order es (preamble-Silent it p) i)
  | inr b ↦ elim (Bool-cases (is_empty it.tool_call_id)) [
    | inl e ↦ rw (b, e) (still es i)
    | inr e ↦ elim (Bool-cases (text_eq it.kind (utf8 "tool") && text_eq it.phase (utf8 "start"))) [
      | inl k ↦ rw (b, e, k) (card-Keeps it.tool_call_id it.name _ p es i)
      | inr k ↦ rw (b, e, k) (still es i)
    ]
  ]
]

pub output_event-Keeps : (o : AgentOutput) (p : LiveProjector) → Keeps p (output_event o p)
unfolding output_event with_output
output_event-Keeps o p es i =
    let id = o.tool_call_id in
    let (c, q) = call id p in
    let (j, e) = call-Inv id p es i in
    elim (Bool-cases (is_empty id)) [
      | inl b ↦ rw b (still es i)
      | inr b ↦ elim (Bool-cases c.started) [
        | inr s ↦ rw (b, s) (still es j)
        | inl s ↦ elim (output_cases (text_eq o.phase (utf8 "end")) c.result_out c.suppressed) [
          | inl (f, r, u) ↦
              rw (b, s, f, r, u)
                (result-Inv id _ _ c _ q.calls q.order es j e s u r (sym s) (sym u) refl)
          | inr k ↦ rw (b, s, k) (quiet-Inv id c _ q.calls q.order es j e (sym s) refl refl)
        ]
      ]
    ]

settle-Keeps : (id : Text) (p : LiveProjector) → Keeps p (settle id p)
unfolding settle
settle-Keeps id p es i = elim (Option-cases (lookup id p.calls)) [
  | inl n ↦ rw (n, settle) (still es i)
  | inr (c, e) ↦ elim (Bool-cases c.started) [
    | inr s ↦ rw (e, settle, s) (still es i)
    | inl s ↦ elim (Bool-cases c.result_out) [
      | inl r ↦ rw (e, settle, s, r) (still es i)
      | inr r ↦ elim (Bool-cases c.suppressed) [
        | inl u ↦ rw (e, settle, s, r, u) (still es i)
        | inr u ↦
            rw (e, settle, s, r, u)
              (result-Inv id _ _ c _ p.calls p.order es i e s u r (sym s) (sym u) refl)
      ]
    ]
  ]
]

pub finalize-Keeps : (ids : List Text) (p : LiveProjector) → Keeps p (finalize ids p)
unfolding finalize
finalize-Keeps [] p es i = still es i
finalize-Keeps (id ∷ ids) p es i =
    rw⁻¹ (append_assoc es (settle id p).0 (finalize ids (settle id p).1).0)
      (finalize-Keeps ids (settle id p).1 (es ++ (settle id p).0) (settle-Keeps id p es i))

final-Silent : (b : Bool) (t : Text) → Silent (if b then message_delta t ∷ [] else [])
unfolding cards results
final-Silent true t = record { no_cards = λ id. refl; no_results = λ id. refl }
final-Silent false t = record { no_cards = λ id. refl; no_results = λ id. refl }

delta-Silent : (b : Bool) (t : Text) → Silent ((if b then text_replace t else message_delta t) ∷ [])
unfolding cards results
delta-Silent true t = record { no_cards = λ id. refl; no_results = λ id. refl }
delta-Silent false t = record { no_cards = λ id. refl; no_results = λ id. refl }

finalize_all-Keeps : (p : LiveProjector) → Keeps p (finalize_all p)
unfolding finalize_all
finalize_all-Keeps p = finalize-Keeps p.order p

-- `finalize_all` reads the calls and their order only.
final-Inv :
    (b : Bool) (run t : Text) (p : LiveProjector) (es : List Event)
    → Inv p.calls p.order es
    → (let q = finalize_all (if b then mark_text run p else p) in
        Inv q.1.calls q.1.order (es ++ (q.0 ++ (if b then message_delta t ∷ [] else []))))
final-Inv b run t p es i =
    let q = finalize_all (if b then mark_text run p else p) in
    rw⁻¹ (append_assoc es q.0 (if b then message_delta t ∷ [] else [])) (
      Silent-Inv (if b then message_delta t ∷ [] else []) q.1.calls q.1.order (es ++ q.0)
        (final-Silent b t) (finalize_all-Keeps (if b then mark_text run p else p) es (marked b)))
  where
    marked :
        (b : Bool)
        → Inv (if b then mark_text run p else p).calls (if b then mark_text run p else p).order es
    marked true = i
    marked false = i

chat_event-Keeps :
    (d : ChatDelta) (p : LiveProjector) → Keeps p ((chat_event d p).0.0, (chat_event d p).1)
unfolding chat_event
chat_event-Keeps d p es i = by_state d.state refl
  where
    by_state :
        (s : ChatState)
        → d.state ≡ s
        → Inv (chat_event d p).1.calls (chat_event d p).1.order (es ++ (chat_event d p).0.0)
    by_state chat_delta e = elim (Bool-cases (is_empty d.delta_text)) [
      | inl b ↦ rw (e, b) (still es i)
      | inr b ↦ rw (e, b) (Silent-Inv _ p.calls p.order es (delta-Silent d.replace d.delta_text) i)
    ]
    by_state chat_final e = rw e (final-Inv _ d.run_id (final_text d) p es i)
    by_state chat_aborted e = rw e (finalize_all-Keeps p es i)
    by_state chat_error e = rw e (finalize_all-Keeps p es i)
    by_state chat_other e = rw e (still es i)

pub feed-Keeps : (f : Frame) (p : LiveProjector) → Keeps p ((feed f p).0.0, (feed f p).1)
unfolding feed
feed-Keeps (tool_frame t) p = tool_event-Keeps t p
feed-Keeps (item_frame it) p = item_event-Keeps it p
feed-Keeps (output_frame o) p = output_event-Keeps o p
feed-Keeps (chat_frame d) p = chat_event-Keeps d p
feed-Keeps ignored p = λ es i. still es i

pub feed_all-Keeps : (fs : List Frame) (p : LiveProjector) → Keeps p (feed_all fs p)
unfolding feed_all
feed_all-Keeps [] p es i = still es i
feed_all-Keeps (f ∷ fs) p es i =
    let (new, q) : List Event × LiveProjector = ((feed f p).0.0, (feed f p).1) in
    rw⁻¹ (append_assoc es new (feed_all fs q).0)
      (feed_all-Keeps fs q (es ++ new) (feed-Keeps f p es i))
