-- ===== src/Hub/Samples.antt =====
-- A session whose first stream is closed only after its removal was overtaken, and the theorem at it.
use cubepilot.Prelude.{
  ℕ, ◌≡◌, refl, Bool, [], ◌∷◌, none, some, Text, utf8, lookup, insert, delete, text_eq, inl, inr,
}
use cubepilot.Hub.{
  Hub, new_hub, has_closed, open_stream, mark_closed, remove, publish_to, opens, marks, removes,
  Reachable, starts, steps,
}
use cubepilot.Hub.Streams.{IsLive, IsLive-registered}

abbrev chat : Text
chat = utf8 "chat"

-- The first stream closes, a second one opens, and the first Close removes once more.
abbrev after : Hub
after = record {
  active = (chat, 1) ∷ [];
  streams = (1, chat) ∷ (0, chat) ∷ [];
  closed = 0 ∷ [];
  next = 2;
}

run :
    remove chat 0 (open_stream chat (remove chat 0 (mark_closed 0 (open_stream chat new_hub).1))).1
    ≡ after
unfolding open_stream mark_closed remove has_closed lookup insert delete text_eq
run = refl

after-Reachable : Reachable after
unfolding open_stream mark_closed remove has_closed lookup insert delete text_eq
after-Reachable =
    steps
      (steps
        (steps
          (steps (steps starts (opens new_hub chat))
            (marks (open_stream chat new_hub).1 0 chat (inl refl)))
          (removes (mark_closed 0 (open_stream chat new_hub).1) 0 chat (inl refl) refl))
        (opens (remove chat 0 (mark_closed 0 (open_stream chat new_hub).1)) chat))
      (removes (open_stream chat (remove chat 0 (mark_closed 0 (open_stream chat new_hub).1))).1 0
        chat (inr (inl refl)) refl)

second-IsLive : IsLive after 1 chat
unfolding has_closed
second-IsLive = (inl refl, refl)

IsLive-registered_example :
    (lookup chat after.active ≡ some 1)
    × ((t : ℕ) → IsLive after t chat → t ≡ 1)
    × ((written : Bool) → publish_to written chat after ≡ written)
    × ((open_stream chat after).0 ≡ none)
IsLive-registered_example = IsLive-registered after 1 chat after-Reachable second-IsLive
