-- ===== src/Hub.antt =====
-- internal/server/ssehub.go: the streams of the chat sessions. Each operation is one critical section of
-- the source; Close is two of them, with steps of others possible in between.
pub mod Streams
mod Samples
use cubepilot.Prelude.{
  ℕ, suc, ◌+◌, ◌≡◌, Bool, true, false, not, ◌&&◌, ◌||◌, List, [], ◌∷◌, Option, none, some, Text,
  Table, lookup, insert, delete, Elem, if◌then◌else◌, ◌==◌,
}

-- Hub, with the streams that it has given out. A stream is a number, that of its Open; `closed` are
-- those whose flag is set.
pub record Hub : Type 0 where
  pub active : Table ℕ
  pub streams : List (ℕ × Text)
  pub closed : List ℕ
  pub next : ℕ

-- NewHub
abbrev pub new_hub : Hub
new_hub = record { active = []; streams = []; closed = []; next = 0 }

-- Stream.closed
unfoldable pub has_closed : List ℕ → ℕ → Bool
has_closed [] s = false
has_closed (t ∷ ts) s = t == s || has_closed ts s

-- Hub.Active
unfoldable pub is_active : Text → Hub → Bool
is_active key h = elim (lookup key h.active) [ none ↦ false | some _ ↦ true ]

-- Hub.Open: the stream, or none for the conflict error.
unfoldable pub open_stream : Text → Hub → Option ℕ × Hub
open_stream key h = elim (lookup key h.active) [
  | some _ ↦ (none, h)
  | none ↦ (
    some h.next,
    record {
      active = insert key h.next h.active;
      streams = (h.next, key) ∷ h.streams;
      closed = h.closed;
      next = suc h.next;
    },
  )
]

-- Stream.Close: its section under the stream's lock.
unfoldable pub mark_closed : ℕ → Hub → Hub
mark_closed s h = if has_closed h.closed s then h else record h { closed = s ∷ h.closed }

-- Hub.remove
unfoldable pub remove : Text → ℕ → Hub → Hub
remove key s h = elim (lookup key h.active) [
  | none ↦ h
  | some cur ↦ if cur == s then record h { active = delete key h.active } else h
]

-- Hub.PublishTo: whether a write is made that succeeds, where `written` tells whether one would.
unfoldable pub publish_to : Bool → Text → Hub → Bool
publish_to written key h = elim (lookup key h.active) [
  | none ↦ false
  | some s ↦ if has_closed h.closed s then false else written
]

-- The steps of all goroutines together. A stream is removed by its own Close only, which has set its
-- flag before.
pub data Step : Hub → Hub → Type 0 where
  opens : (h : Hub) (key : Text) → Step h (open_stream key h).1
  marks : (h : Hub) (s : ℕ) (key : Text) → Elem (s, key) h.streams → Step h (mark_closed s h)
  removes :
      (h : Hub) (s : ℕ) (key : Text)
      → Elem (s, key) h.streams
      → has_closed h.closed s ≡ true
      → Step h (remove key s h)

-- The states that a new hub can come to.
pub data Reachable : Hub → Type 0 where
  starts : Reachable new_hub
  steps : {h h' : Hub} → Reachable h → Step h h' → Reachable h'
