-- ===== src/Projection/Calls/Writes.antt =====
-- What one write to the table of calls does to its agreement with the events.
use cubepilot.Prelude.{
  ◌≡◌, sym, ◌∙◌, subst, Bool, true, false, List, [], ◌∷◌, ◌++◌, some, Text, lookup, insert, Table,
  if◌then◌else◌, append-nil, arith,
}
use cubepilot.Projection.{Event, tool_call, tool_result, LiveCall}
use cubepilot.Projection.Calls.{
  Inv, Tracks, view-some, cards, results, put_call-Inv, About-nothing, About-card, About-result,
}

pub still :
    {m : Table LiveCall} {order : List Text} (es : List Event)
    → Inv m order es
    → Inv m order (es ++ [])
still {m} {order} es i = rw (append-nil es) i

tracked :
    (id : Text) (c : LiveCall) (m : Table LiveCall) (order : List Text) (es : List Event)
    → Inv m order es
    → lookup id m ≡ some c
    → Tracks c (cards id es) (results id es)
tracked id c m order es i e =
    subst (λ (x : LiveCall). Tracks x (cards id es) (results id es)) (view-some id c m e)
      (i.tracks id)

-- A write that leaves the three flags as they are.
pub quiet-Inv :
    (id : Text) (c c' : LiveCall) (m : Table LiveCall) (order : List Text) (es : List Event)
    → Inv m order es
    → lookup id m ≡ some c
    → c'.started ≡ c.started
    → c'.suppressed ≡ c.suppressed
    → c'.result_out ≡ c.result_out
    → Inv (insert id c' m) order (es ++ [])
quiet-Inv id c c' m order es i e s u r =
    let t = tracked id c m order es i e in
    put_call-Inv id c c' m order es [] 0 0 i e (About-nothing id) (record {
      shown = rw (s, u) (omega (arith, t.shown));
      answered = rw r (omega (arith, t.answered));
      legal = rw (s, u, r) t.legal;
    })

-- The result of a call that has a card and none yet.
pub result-Inv :
    (id n o : Text) (c c' : LiveCall) (m : Table LiveCall) (order : List Text) (es : List Event)
    → Inv m order es
    → lookup id m ≡ some c
    → c.started ≡ true
    → c.suppressed ≡ false
    → c.result_out ≡ false
    → c'.started ≡ c.started
    → c'.suppressed ≡ c.suppressed
    → c'.result_out ≡ true
    → Inv (insert id c' m) order (es ++ tool_result n id o ∷ [])
result-Inv id n o c c' m order es i e cs cu cr s u r =
    let t = tracked id c m order es i e in
    put_call-Inv id c c' m order es (tool_result n id o ∷ []) 0 1 i e (About-result id n o)
      (record {
        shown = rw (s, u) (omega (arith, t.shown));
        answered = rw r (grind (arith, t.answered, cr));
        legal = λ _. rw (s, u) (cs, cu);
      })

-- The start of a call that had none: a card, unless it is suppressed.
pub start-Inv :
    (id n a : Text) (c c' : LiveCall) (b : Bool) (m : Table LiveCall) (order : List Text)
    (es : List Event)
    → Inv m order es
    → lookup id m ≡ some c
    → c.started ≡ false
    → c'.started ≡ true
    → c'.result_out ≡ c.result_out
    → c'.suppressed ≡ b
    → Inv (insert id c' m) order (es ++ (if b then [] else tool_call n id a ∷ []))
start-Inv id n a c c' b m order es i e cs s r u = by_card b u
  where
    t : Tracks c (cards id es) (results id es)
    t = tracked id c m order es i e

    unanswered : c.result_out ≡ true → (c'.started ≡ true) × (c'.suppressed ≡ false)
    unanswered h = grind (arith, (t.legal h).0, cs)

    by_card :
        (b : Bool)
        → c'.suppressed ≡ b
        → Inv (insert id c' m) order (es ++ (if b then [] else tool_call n id a ∷ []))
    by_card true u = put_call-Inv id c c' m order es [] 0 0 i e (About-nothing id) (record {
      shown = grind (arith, t.shown, cs, s, u);
      answered = rw r (omega (arith, t.answered));
      legal = λ h. unanswered (sym r ∙ h);
    })
    by_card false u =
        put_call-Inv id c c' m order es (tool_call n id a ∷ []) 1 0 i e (About-card id n a)
          (record {
            shown = grind (arith, t.shown, cs, s, u);
            answered = rw r (omega (arith, t.answered));
            legal = λ h. unanswered (sym r ∙ h);
          })
