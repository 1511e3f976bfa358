-- ===== src/Projection/Turns.antt =====
-- What a turn's events show of each call: one card at most, one result at most, and none left open.
use cubepilot.Prelude.{
  insert, subst, contains, leb→le, append-nil, zero, suc, text_eq_refl, is_empty, ℕ, ◌+◌, ◌-◌, ◌≤◌,
  ◌≡◌, refl, sym, ap, ◌∙◌, true, false, not, ◌&&◌, ◌||◌, List, [], ◌∷◌, ◌++◌, none, Text,
  text_eq_cases, length, take, Elem, lookup, Table, if◌then◌else◌, Bool-cases, Option-cases, ◌⊎◌,
  inl, inr, arith, text_eq, leb, ltb,
}
use cubepilot.Projection.{
  LiveCall, fresh_call, LiveProjector, new_live_projector, ChatDelta, ChatState, chat_delta,
  chat_final, chat_aborted, chat_error, chat_other, Frame, tool_frame, item_frame, output_frame,
  chat_frame, ignored, append, live_output_cap,
}
use cubepilot.Projection.Feed.{
  settle, finalize, finalize_all, chat_event, feed, feed_all, mark_text, final_text,
}
use cubepilot.Projection.Calls.{Inv, view, view-insert, view-some, cards, results, bit}
use cubepilot.Projection.Calls.Steps.{feed_all-Keeps, feed-Keeps}

new-Inv : Inv [] [] []
unfolding view cards results lookup
new-Inv = record {
  tracks = λ id. record { shown = refl; answered = refl; legal = λ h. grind (arith, h) };
  listed = λ id c h. grind (arith, h);
}

-- At every point of a turn, a call has been shown with one card at most, and has at most as many
-- results as cards: never two, and none ahead of its card.
pub feed_all-once :
    (fs : List Frame) (id : Text)
    → (cards id (feed_all fs new_live_projector).0 ≤ 1)
      × (results id (feed_all fs new_live_projector).0
          ≤ cards id (feed_all fs new_live_projector).0)
feed_all-once fs id =
    let t = (feed_all-Keeps fs new_live_projector [] new-Inv).tracks id in
    ground (arith, t.shown, t.answered, t.legal)

-- A call that is not open: one with a card has its result.
IsDone : LiveCall → Type 0
IsDone c = c.started ≡ true → c.suppressed ≡ false → c.result_out ≡ true

view-none : (id : Text) (m : Table LiveCall) → lookup id m ≡ none → view m id ≡ fresh_call
unfolding view
view-none id m e = rw (e, view) refl

settle_cases :
    (id : Text) (p : LiveProjector)
    → ((settle id p).1 ≡ p) × IsDone (view p.calls id)
      ⊎ (c : LiveCall) × ((settle id p).1
          ≡ record p { calls = insert id (record c { result_out = true }) p.calls })
unfolding settle IsDone
settle_cases id p = elim (Option-cases (lookup id p.calls)) [
  | inl n ↦
      rw (n, settle) (inl (refl, rw (view-none id p.calls n) (λ s u. absurd (grind (arith, s)))))
  | inr (c, e) ↦ elim (Bool-cases (not c.started || c.result_out || c.suppressed)) [
    | inl k ↦
        rw (e, settle, k)
          (inl (refl, rw (view-some id c p.calls e) (λ s u. grind (arith, k, s, u))))
    | inr k ↦ rw (e, settle, k) (inr (c, refl))
  ]
]

IsDone-insert :
    (id j : Text) (c : LiveCall) (m : Table LiveCall)
    → (text_eq id j ≡ false → IsDone (view m j))
    → IsDone (view (insert id (record c { result_out = true }) m) j)
unfolding IsDone
IsDone-insert id j c m h =
    rw (view-insert id j (record c { result_out = true }) m)
      (elim (text_eq_cases id j) [ inl (_, t) ↦ rw t (λ s u. refl) | inr (_, f) ↦ rw f (h f) ])

settle-IsDone : (id : Text) (p : LiveProjector) → IsDone (view (settle id p).1.calls id)
settle-IsDone id p = elim (settle_cases id p) [
  | inl (e, d) ↦ rw e d
  | inr (c, e) ↦
      rw e (IsDone-insert id id c p.calls (λ f. absurd (grind (arith, f, text_eq_refl id))))
]

settle-stays :
    (id j : Text) (p : LiveProjector)
    → IsDone (view p.calls j)
    → IsDone (view (settle id p).1.calls j)
settle-stays id j p d = elim (settle_cases id p) [
  | inl (e, _) ↦ rw e d
  | inr (c, e) ↦ rw e (IsDone-insert id j c p.calls (λ _. d))
]

finalize-stays :
    (ids : List Text) (j : Text) (p : LiveProjector)
    → IsDone (view p.calls j)
    → IsDone (view (finalize ids p).1.calls j)
unfolding finalize
finalize-stays [] j p d = d
finalize-stays (id ∷ ids) j p d = finalize-stays ids j (settle id p).1 (settle-stays id j p d)

finalize-IsDone :
    (ids : List Text) (j : Text) (p : LiveProjector)
    → Elem j ids
    → IsDone (view (finalize ids p).1.calls j)
unfolding finalize
finalize-IsDone [] j p h = absurd h
finalize-IsDone (id ∷ ids) j p (inl e) =
    finalize-stays ids j (settle id p).1
      (subst (λ (x : Text). IsDone (view (settle id p).1.calls x)) (sym e) (settle-IsDone id p))
finalize-IsDone (id ∷ ids) j p (inr h) = finalize-IsDone ids j (settle id p).1 h

settle-order : (id : Text) (p : LiveProjector) → (settle id p).1.order ≡ p.order
settle-order id p = elim (settle_cases id p) [ inl (e, _) ↦ rw e refl | inr (c, e) ↦ rw e refl ]

finalize-order : (ids : List Text) (p : LiveProjector) → (finalize ids p).1.order ≡ p.order
unfolding finalize
finalize-order [] p = refl
finalize-order (id ∷ ids) p = finalize-order ids (settle id p).1 ∙ settle-order id p

finalize_all-order : (p : LiveProjector) → (finalize_all p).1.order ≡ p.order
unfolding finalize_all
finalize_all-order p = finalize-order p.order p

-- After finalizeAll every listed call is done.
finalize_all-IsDone :
    (p : LiveProjector) (j : Text)
    → Elem j (finalize_all p).1.order
    → IsDone (view (finalize_all p).1.calls j)
unfolding finalize_all
finalize_all-IsDone p j h =
    finalize-IsDone p.order j p (subst (λ (o : List Text). Elem j o) (finalize_all-order p) h)

-- The projection that a final frame settles.
abbrev final_base : ChatDelta → LiveProjector → LiveProjector
final_base d p =
    if not (contains p.texts d.run_id) && not (is_empty (final_text d))
    then mark_text d.run_id p
    else p

-- A frame that ends the run leaves every listed call done.
AllDone : LiveProjector → Type 0
AllDone q = (j : Text) → Elem j q.order → IsDone (view q.calls j)

chat_event-AllDone :
    (d : ChatDelta) (p : LiveProjector) → (chat_event d p).0.1 ≡ true → AllDone (chat_event d p).1
unfolding chat_event AllDone
chat_event-AllDone d p = by_state d.state refl
  where
    by_state :
        (s : ChatState) → d.state ≡ s → (chat_event d p).0.1 ≡ true → AllDone (chat_event d p).1
    by_state chat_delta e = elim (Bool-cases (is_empty d.delta_text)) [
      | inl b ↦ rw (e, b) (λ h. absurd (grind (arith, h)))
      | inr b ↦ rw (e, b) (λ h. absurd (grind (arith, h)))
    ]
    by_state chat_final e = rw e (λ _. finalize_all-IsDone (final_base d p))
    by_state chat_aborted e = rw e (λ _. finalize_all-IsDone p)
    by_state chat_error e = rw e (λ _. finalize_all-IsDone p)
    by_state chat_other e = rw e (λ h. absurd (grind (arith, h)))

feed-AllDone : (f : Frame) (p : LiveProjector) → (feed f p).0.1 ≡ true → AllDone (feed f p).1
unfolding feed
feed-AllDone (tool_frame t) p h = absurd (grind (arith, h))
feed-AllDone (item_frame it) p h = absurd (grind (arith, h))
feed-AllDone (output_frame o) p h = absurd (grind (arith, h))
feed-AllDone (chat_frame d) p h = chat_event-AllDone d p h
feed-AllDone ignored p h = absurd (grind (arith, h))

-- Once a frame has ended the run, every call that was shown with a card has been given its result:
-- no card stays open.
pub feed-settles :
    (fs : List Frame) (f : Frame) (id : Text)
    → (feed f (feed_all fs new_live_projector).1).0.1 ≡ true
    → (let (es, p) = feed_all fs new_live_projector in
        results id (es ++ (feed f p).0.0) ≡ cards id (es ++ (feed f p).0.0))
unfolding AllDone IsDone
feed-settles fs f id ends =
    let p = (feed_all fs new_live_projector).1 in
    let q = (feed f p).1 in
    let i = feed-Keeps f p _ (feed_all-Keeps fs new_live_projector [] new-Inv) in
    let t = i.tracks id in
    elim (Option-cases (lookup id q.calls)) [
      | inl n ↦
          let v = view-none id q.calls n in
          (t.answered ∙ ap (λ (c : LiveCall). bit c.result_out) v)
          ∙ sym (t.shown ∙ ap (λ (c : LiveCall). bit (c.started && not c.suppressed)) v)
      | inr (c, e) ↦
          let d = feed-AllDone f p ends id (i.listed id c e) in
          ground (arith, t.shown, t.answered, t.legal, d)
    ]

take-all : {A : Type 0} (n : ℕ) (xs : List A) → length xs ≤ n → take n xs ≡ xs
take-all zero [] h = refl
take-all zero (x ∷ xs) h = absurd (grind (arith, h))
take-all (suc n) [] h = refl
take-all (suc n) (x ∷ xs) h = ap (λ z. x ∷ z) (take-all n xs (omega (arith, h)))

take-append :
    {A : Type 0} (n : ℕ) (xs ys : List A)
    → length xs ≤ n
    → take n (xs ++ ys) ≡ xs ++ take (n - length xs) ys
take-append n [] ys h = ap (λ k. take k ys) (minus_nothing n)
  where
    minus_nothing : (k : ℕ) → k ≡ k - 0
    minus_nothing k = omega arith
take-append zero (x ∷ xs) ys h = absurd (grind (arith, h))
take-append (suc n) (x ∷ xs) ys h =
    ap (λ z. x ∷ z)
      (take-append n xs ys (omega (arith, h)) ∙ ap (λ k. xs ++ take k ys) (one_less n (length xs)))
  where
    one_less : (a b : ℕ) → a - b ≡ suc a - suc b
    one_less a b = omega arith

cut :
    (n : ℕ) (xs ys : Text)
    → length xs ≤ n
    → (if leb n (length xs)
        then xs
        else if ltb n (length xs + length ys)
        then xs ++ take (n - length xs) ys
        else xs ++ ys)
      ≡ take n (xs ++ ys)
cut n xs ys h = rw (take-append n xs ys h) (elim (Bool-cases (leb n (length xs))) [
  | inl a ↦ rw (a, gone n (length xs) (leb→le n (length xs) a)) (sym (append-nil xs))
  | inr a ↦ elim (Bool-cases (ltb n (length xs + length ys))) [
    | inl b ↦ rw (a, b) refl
    | inr b ↦
        rw (a, b) (ap (λ z. xs ++ z) (sym (take-all (n - length xs) ys (ground (arith, a, b)))))
  ]
])
  where
    gone : (a b : ℕ) → a ≤ b → a - b ≡ 0
    gone a b l = omega (arith, l)

-- The output that a call accumulates from its deltas is what they hold together, cut at the cap.
pub append_lem :
    (output s : Text)
    → length output ≤ live_output_cap
    → append output s ≡ take live_output_cap (output ++ s)
unfolding append
append_lem output s h = cut live_output_cap output s h
