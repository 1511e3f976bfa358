-- ===== src/Projection/Calls.antt =====
-- What a projection keeps of each call: its cards and results counted over the events of the turn.
pub mod Steps
pub mod Writes
use cubepilot.Prelude.{
  ℕ, zero, suc, ◌+◌, ◌≡◌, ◌≢◌, refl, sym, ap, ◌∙◌, Bool, true, false, not, ◌&&◌, List, [], ◌∷◌,
  ◌++◌, Option, none, some, Text, text_eq, text_eq_iff, text_eq_refl, text_eq_cases, Elem,
  Elem-append_left, Elem-append_right, Table, lookup, insert, lookup-insert, if◌then◌else◌,
  append-nil, append_assoc, Option-cases, ◌⊎◌, inl, inr, arith, subst,
}
use cubepilot.Projection.{
  Event, message_delta, text_replace, tool_call, tool_result, narration, LiveCall, fresh_call,
  LiveProjector, call, put_call,
}

abbrev pub bit : Bool → ℕ
bit b = if b then 1 else 0

-- The cards that the events show for a call, and the results that they give it.
unfoldable pub cards : Text → List Event → ℕ
cards id [] = 0
cards id (tool_call n j a ∷ es) = bit (text_eq j id) + cards id es
cards id (message_delta t ∷ es) = cards id es
cards id (text_replace t ∷ es) = cards id es
cards id (tool_result n j o ∷ es) = cards id es
cards id (narration b t ∷ es) = cards id es

unfoldable pub results : Text → List Event → ℕ
results id [] = 0
results id (tool_result n j o ∷ es) = bit (text_eq j id) + results id es
results id (message_delta t ∷ es) = results id es
results id (text_replace t ∷ es) = results id es
results id (tool_call n j a ∷ es) = results id es
results id (narration b t ∷ es) = results id es

pub cards-append :
    (id : Text) (xs ys : List Event) → cards id (xs ++ ys) ≡ cards id xs + cards id ys
unfolding cards
cards-append id [] ys = omega arith
cards-append id (tool_call n j a ∷ xs) ys = ground (arith, cards-append id xs ys)
cards-append id (message_delta t ∷ xs) ys = cards-append id xs ys
cards-append id (text_replace t ∷ xs) ys = cards-append id xs ys
cards-append id (tool_result n j o ∷ xs) ys = cards-append id xs ys
cards-append id (narration b t ∷ xs) ys = cards-append id xs ys

pub results-append :
    (id : Text) (xs ys : List Event) → results id (xs ++ ys) ≡ results id xs + results id ys
unfolding results
results-append id [] ys = omega arith
results-append id (tool_result n j o ∷ xs) ys = ground (arith, results-append id xs ys)
results-append id (message_delta t ∷ xs) ys = results-append id xs ys
results-append id (text_replace t ∷ xs) ys = results-append id xs ys
results-append id (tool_call n j a ∷ xs) ys = results-append id xs ys
results-append id (narration b t ∷ xs) ys = results-append id xs ys

-- The call that a projection has under an id.
unfoldable pub view : Table LiveCall → Text → LiveCall
view m id = elim (lookup id m) [ none ↦ fresh_call | some c ↦ c ]

-- A call agrees with its counts: it has a card once it has started, unless it is suppressed, and a
-- result once that is out; a result is out only of a call that has a card.
pub record Tracks (c : LiveCall) (k r : ℕ) : Type 0 where
  pub shown : k ≡ bit (c.started && not c.suppressed)
  pub answered : r ≡ bit c.result_out
  pub legal : c.result_out ≡ true → (c.started ≡ true) × (c.suppressed ≡ false)

-- The calls and the order of a projection agree with the events that it has emitted.
pub record Inv (m : Table LiveCall) (order : List Text) (es : List Event) : Type 0 where
  pub tracks : (id : Text) → Tracks (view m id) (cards id es) (results id es)
  pub listed : (id : Text) (c : LiveCall) → lookup id m ≡ some c → Elem id order

-- Events that are about one call only, with its counts.
pub record About (id : Text) (k r : ℕ) (es : List Event) : Type 0 where
  pub its_cards : (j : Text) → cards j es ≡ (if text_eq id j then k else 0)
  pub its_results : (j : Text) → results j es ≡ (if text_eq id j then r else 0)

pub About-nothing : (id : Text) → About id 0 0 []
unfolding cards results
About-nothing id = record { its_cards = λ j. ground arith; its_results = λ j. ground arith }

pub About-card : (id n a : Text) → About id 1 0 (tool_call n id a ∷ [])
unfolding cards results
About-card id n a = record { its_cards = λ j. ground arith; its_results = λ j. ground arith }

pub About-result : (id n o : Text) → About id 0 1 (tool_result n id o ∷ [])
unfolding cards results
About-result id n o = record { its_cards = λ j. ground arith; its_results = λ j. ground arith }

pub view-insert :
    (id j : Text) (c : LiveCall) (m : Table LiveCall)
    → view (insert id c m) j ≡ (if text_eq id j then c else view m j)
unfolding view
view-insert id j c m = rw (lookup-insert id j c m, view) (ground arith)

pub view-some :
    (id : Text) (c : LiveCall) (m : Table LiveCall) → lookup id m ≡ some c → view m id ≡ c
unfolding view
view-some id c m e = rw (e, view) refl

pub view-fresh :
    (id j : Text) (m : Table LiveCall)
    → lookup id m ≡ none
    → view (insert id fresh_call m) j ≡ view m j
unfolding view
view-fresh id j m e = rw (view-insert id j fresh_call m) (elim (text_eq_cases id j) [
  | inl (s, t) ↦ rw (t, sym s, e, view) refl
  | inr (_, f) ↦ rw f refl
])

-- Where a call is replaced by one that agrees with its counts and the new events, the rest follows.
pub put_call-Inv :
    (id : Text) (c c' : LiveCall) (m : Table LiveCall) (order : List Text) (es new : List Event)
    (k r : ℕ)
    → Inv m order es
    → lookup id m ≡ some c
    → About id k r new
    → Tracks c' (cards id es + k) (results id es + r)
    → Inv (insert id c' m) order (es ++ new)
put_call-Inv id c c' m order es new k r i e a t = record { tracks = at; listed = listed }
  where
    at : (j : Text) → Tracks (view (insert id c' m) j) (cards j (es ++ new)) (results j (es ++ new))
    at j =
        rw
          (
            view-insert id j c' m,
            cards-append j es new,
            results-append j es new,
            a.its_cards j,
            a.its_results j,
          )
          (elim (text_eq_cases id j) [
            | inl (s, t') ↦
                rw t' (subst (λ (x : Text). Tracks c' (cards x es + k) (results x es + r)) s t)
            | inr (_, f) ↦ rw f (
                let old = i.tracks j in
                record {
                  shown = omega (arith, old.shown);
                  answered = omega (arith, old.answered);
                  legal = old.legal;
                })
          ])

    listed : (j : Text) (d : LiveCall) → lookup j (insert id c' m) ≡ some d → Elem j order
    listed j d h = elim (text_eq_cases id j) [
      | inl (s, _) ↦ subst (λ (x : Text). Elem x order) s (i.listed id c e)
      | inr (_, f) ↦ i.listed j d (sym (lookup-insert id j c' m ∙ rw f refl) ∙ h)
    ]

-- `call` gives the call that it then holds, and changes no view.
pub call-Inv :
    (id : Text) (p : LiveProjector) (es : List Event)
    → Inv p.calls p.order es
    → Inv (call id p).1.calls (call id p).1.order es
      × (lookup id (call id p).1.calls ≡ some (call id p).0)
unfolding call
call-Inv id p es i = elim (Option-cases (lookup id p.calls)) [
  | inr (c, e) ↦ rw (e, call) (i, e)
  | inl e ↦
      rw (e, call)
        (
          record {
            tracks = λ j. rw (view-fresh id j p.calls e) (i.tracks j);
            listed = λ j d h. elim (text_eq_cases id j) [
              | inl (s, _) ↦
                  subst (λ (x : Text). Elem x (p.order ++ id ∷ [])) s
                    (Elem-append_right id p.order (id ∷ []) (inl refl))
              | inr (_, f) ↦
                  Elem-append_left j p.order (id ∷ [])
                    (i.listed j d (sym (lookup-insert id j fresh_call p.calls ∙ rw f refl) ∙ h))
            ];
          },
          lookup-insert id id fresh_call p.calls ∙ rw (text_eq_refl id) refl,
        )
]
