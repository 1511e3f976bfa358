-- ===== src/Approvals/Exclusion.antt =====
-- Decisions on one approval, at one time: what the reservations of internal/server/approvals.go keep.
use cubepilot.Prelude.{
  ℕ, ◌≡◌, refl, ap, sym, subst, ◌∷◌, some, Text, text_eq_cases, Elem, arith, inl, inr,
}
use cubepilot.Approvals.Reserving.{
  found, answered, Decisions, without, Step, reserves, finds, writes, fails, gives_up, releases,
  raises, ends, Reachable, starts, steps,
}
use cubepilot.Approvals.Holding.{
  held, IsExclusive, Elem-without, Elem-without_intro, same_some, alone, goes_on, ends_call, begins,
  settles,
}

raised :
    (s : Decisions) (i : IsExclusive s) (id : Text)
    → ¬ Elem id s.settled
    → IsExclusive (record s { pending = id ∷ s.pending })
raised s i id n = record {
  owned = i.owned;
  open_still = λ t j e. elim (i.open_still t j e) [ inl m ↦ inl (inr m) | inr m ↦ inr m ];
  apart = λ j h k. elim k [ inl q ↦ n (subst (λ z. Elem z s.settled) q h) | inr m ↦ i.apart j h m ];
  once = i.once;
}

ended_one :
    (s : Decisions) (i : IsExclusive s) (id : Text)
    → IsExclusive (record s { pending = without id s.pending; ended = id ∷ s.ended })
ended_one s i id = record {
  owned = i.owned;
  open_still = λ t j e. elim (i.open_still t j e) [
    | inl m ↦ elim (text_eq_cases id j) [
      | inl (q, _) ↦ inr (inl (sym q))
      | inr (n, _) ↦ inl (Elem-without_intro id j s.pending n m)
    ]
    | inr m ↦ inr (inr m)
  ];
  apart = λ j h k. i.apart j h (Elem-without id j s.pending k).1;
  once = i.once;
}

Step-IsExclusive : {s u : Decisions} → Step s u → IsExclusive s → IsExclusive u
Step-IsExclusive (reserves s t id taken f r) i = begins s i t id taken f r
Step-IsExclusive (finds s t id h m) i =
    goes_on s i t id (found id) (ap held h) refl
      (λ k e. inl (subst (λ z. Elem z s.pending) (same_some (ap held e)) m))
Step-IsExclusive (writes s t id h m) i = settles s i t id h m
Step-IsExclusive (fails s t id h) i =
    goes_on s i t id (answered id) (ap held h) refl (λ k e. absurd (grind (arith, e)))
Step-IsExclusive (gives_up s t id h) i = ends_call s i t id (ap held h)
Step-IsExclusive (releases s t id h) i = ends_call s i t id (ap held h)
Step-IsExclusive (raises s id n) i = raised s i id n
Step-IsExclusive (ends s id) i = ended_one s i id

-- In every state that the service comes to, with calls of Resolve running at one time: an approval is
-- reserved by the one call that holds it, no two calls hold one approval, an approval that a call has
-- found and is about to write is still pending unless the gateway or another client has ended it, and
-- none has been settled twice.
pub Reachable-IsExclusive :
    (s : Decisions)
    → Reachable s
    → IsExclusive s
      × ((t u : ℕ) (id : Text) → held (s.phase t) ≡ some id → held (s.phase u) ≡ some id → t ≡ u)
Reachable-IsExclusive s r = let i = exclusive r in (i, alone s i)
  where
    exclusive : {s : Decisions} → Reachable s → IsExclusive s
    exclusive starts = record {
      owned = λ t id h. absurd (grind (arith, h));
      open_still = λ t id h. absurd (grind (arith, h));
      apart = λ id h. absurd h;
      once = tt;
    }
    exclusive (steps r h) = Step-IsExclusive h (exclusive r)
