-- ===== src/Turns/Histories.antt =====
-- Histories of the live turns, and what no event changes of a turn.
use cubepilot.Prelude.{
  ◌≡◌, refl, ◌∙◌, Bool, true, false, ◌&&◌, List, [], ◌∷◌, ◌++◌, Option, some, Text, text_eq, Table,
  if◌then◌else◌, inl, inr, Option-cases,
}
use cubepilot.Projection.{Event}
use cubepilot.Projection.Feed.{feed}
use cubepilot.Turns.{
  LiveTurn, finish_with, Broadcast, deliver, terminate, project, route_live, register_live,
  release_live,
}

-- What happens to the live turns: an event on a user's connection, the start and the end of a turn.
pub data Happening : Type 0 where
  hears : Text → Broadcast → Happening
  registers : Text → Text → (List Event → Event → Option Text) → Text → Happening
  releases : Text → Text → Happening

unfoldable pub happen : List Happening → Table LiveTurn → Table LiveTurn
happen [] live = live
happen (hears user b ∷ hs) live = happen hs (route_live user b live)
happen (registers user key sink id ∷ hs) live = happen hs (register_live user key sink id live)
happen (releases user key ∷ hs) live = happen hs (release_live user key live)

-- No turn of the session starts, and none of the user is released in it.
abbrev pub Lasts : Text → Text → Happening → Type 0
Lasts user key (hears u b) = Unit
Lasts user key (registers u k sink id) = text_eq k key ≡ false
Lasts user key (releases u k) = (text_eq k key && text_eq u user) ≡ false

-- An event of the user's connection, of that session and of that run.
unfoldable pub is_own : Text → Text → Text → Text → Broadcast → Bool
is_own user key run u b =
    b.decodes && text_eq b.session_key key && text_eq u user && text_eq b.run_id run

-- The turn by itself: only its own events, one after another.
unfoldable pub alone : Text → Text → Text → List Happening → LiveTurn → LiveTurn
alone user key run [] t = t
alone user key run (hears u b ∷ hs) t =
    alone user key run hs (if is_own user key run u b then project b t else t)
alone user key run (registers u k sink id ∷ hs) t = alone user key run hs t
alone user key run (releases u k ∷ hs) t = alone user key run hs t

-- Nothing that an event does changes whose turn it is.
finish_with-kept :
    (err : Option Text) (stopped : Bool) (t : LiveTurn)
    → ((finish_with err stopped t).user ≡ t.user) × ((finish_with err stopped t).run_id ≡ t.run_id)
unfolding finish_with
finish_with-kept err stopped t = elim (Option-cases t.ended) [
  | inl o ↦ rw (o, finish_with) (refl, refl)
  | inr (e, o) ↦ rw (o, finish_with) (refl, refl)
]

deliver-kept :
    (es : List Event) (t : LiveTurn)
    → ((deliver es t).0.user ≡ t.user) × ((deliver es t).0.run_id ≡ t.run_id)
unfolding deliver
deliver-kept [] t = (refl, refl)
deliver-kept (e ∷ es) t = elim (Option-cases (t.sink t.sent e)) [
  | inl o ↦ rw (o, deliver) (deliver-kept es (record t { sent = t.sent ++ e ∷ [] }))
  | inr (err, o) ↦ rw (o, deliver) (finish_with-kept (some err) false t)
]

terminate-kept :
    (b : Broadcast) (terminal : Bool) (z : LiveTurn × Bool)
    → ((terminate b terminal z).user ≡ z.0.user) × ((terminate b terminal z).run_id ≡ z.0.run_id)
unfolding terminate
terminate-kept b terminal (t, false) = (refl, refl)
terminate-kept b false (t, true) = (refl, refl)
terminate-kept b true (t, true) = finish_with-kept _ _ t

pub project-kept :
    (b : Broadcast) (t : LiveTurn)
    → ((project b t).user ≡ t.user) × ((project b t).run_id ≡ t.run_id)
unfolding project
project-kept b t =
    let fed = feed b.frame t.proj in
    let d = deliver fed.0.0 (record t { proj = fed.1 }) in
    let e = terminate-kept b fed.0.1 d in
    let k = deliver-kept fed.0.0 (record t { proj = fed.1 }) in (e.0 ∙ k.0, e.1 ∙ k.1)
