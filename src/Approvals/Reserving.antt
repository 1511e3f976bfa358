-- ===== src/Approvals/Reserving.antt =====
-- reserve, release and deciding of internal/server/approvals.go, with the decisions that run at one
-- time. Each step is a critical section, a call of the gateway, or something that the gateway does.
use cubepilot.Prelude.{
  ℕ, ◌≡◌, Bool, true, false, not, List, [], ◌∷◌, Option, none, some, Text, Table, lookup, insert,
  delete, text_eq, Elem, filter, if◌then◌else◌, ◌==◌,
}

-- One round of reserve, for the decision `t`: the reservation, unless the id is busy.
unfoldable pub reserve : Text → ℕ → Table ℕ → Option (Table ℕ)
reserve id t inflight = elim (lookup id inflight) [
  | some _ ↦ none
  | none ↦ some (insert id t inflight)
]

-- release
unfoldable pub release : Text → Table ℕ → Table ℕ
release id inflight = elim (lookup id inflight) [ none ↦ inflight | some _ ↦ delete id inflight ]

-- deciding
unfoldable pub deciding : Text → Table ℕ → Bool
deciding id inflight = elim (lookup id inflight) [ none ↦ false | some _ ↦ true ]

-- How far a call of Resolve has come: it has its reservation, it has found the approval in the
-- pending set, the gateway has answered its decision.
pub data Phase : Type 0 where
  fresh over : Phase
  holding found answered : Text → Phase

-- The service and the gateway. A decision is a number; `ended` are the approvals that the gateway, or
-- another client of it, has ended, and `settled` those whose decision from here was accepted.
pub record Decisions : Type 0 where
  pub inflight : Table ℕ
  pub phase : ℕ → Phase
  pub pending : List Text
  pub ended : List Text
  pub settled : List Text

abbrev pub start : Decisions
start = record { inflight = []; phase = λ t. fresh; pending = []; ended = []; settled = [] }

abbrev pub set_phase : ℕ → Phase → (ℕ → Phase) → ℕ → Phase
set_phase t p phase u = if u == t then p else phase u

abbrev pub without : Text → List Text → List Text
without id ids = filter (λ j. not (text_eq id j)) ids

-- The steps. A call that has its reservation reads the pending set, writes where it finds the approval,
-- and releases, whatever has happened.
pub data Step : Decisions → Decisions → Type 0 where
  reserves :
      (s : Decisions) (t : ℕ) (id : Text) (taken : Table ℕ)
      → s.phase t ≡ fresh
      → reserve id t s.inflight ≡ some taken
      → Step s (record s { inflight = taken; phase = set_phase t (holding id) s.phase })
  finds :
      (s : Decisions) (t : ℕ) (id : Text)
      → s.phase t ≡ holding id
      → Elem id s.pending
      → Step s (record s { phase = set_phase t (found id) s.phase })
  writes :
      (s : Decisions) (t : ℕ) (id : Text)
      → s.phase t ≡ found id
      → Elem id s.pending
      → Step s (record s {
        phase = set_phase t (answered id) s.phase;
        pending = without id s.pending;
        settled = id ∷ s.settled;
      })
  fails :
      (s : Decisions) (t : ℕ) (id : Text)
      → s.phase t ≡ found id
      → Step s (record s { phase = set_phase t (answered id) s.phase })
  gives_up :
      (s : Decisions) (t : ℕ) (id : Text)
      → s.phase t ≡ holding id
      → Step s (record s { inflight = release id s.inflight; phase = set_phase t over s.phase })
  releases :
      (s : Decisions) (t : ℕ) (id : Text)
      → s.phase t ≡ answered id
      → Step s (record s { inflight = release id s.inflight; phase = set_phase t over s.phase })
  raises :
      (s : Decisions) (id : Text)
      → ¬ Elem id s.settled
      → Step s (record s { pending = id ∷ s.pending })
  ends :
      (s : Decisions) (id : Text)
      → Step s (record s { pending = without id s.pending; ended = id ∷ s.ended })

-- The states that a new service comes to.
pub data Reachable : Decisions → Type 0 where
  starts : Reachable start
  steps : {s u : Decisions} → Reachable s → Step s u → Reachable u
