-- ===== src/Approvals/Holding.antt =====
-- What the reservations of approvals keep, and that each step of a decision keeps it.
use cubepilot.Prelude.{
  ℕ, ◌≡◌, refl, ap, sym, ◌∙◌, subst, not, List, ◌∷◌, Option, none, some, Text, Table, lookup,
  insert, lookup-insert, lookup-delete, text_eq, text_eq_iff, text_eq_refl, Elem, Elem-filter,
  Elem-filter_intro, Distinct, arith, ◌⊎◌, inl, inr, ◌==◌, ==_iff, Bool-cases, Option-cases, ◌≢◌,
}
use cubepilot.Approvals.Reserving.{
  reserve, release, Phase, fresh, over, holding, found, answered, Decisions, set_phase, without,
}

-- The approval that a call has reserved.
abbrev pub held : Phase → Option Text
held fresh = none
held over = none
held (holding id) = some id
held (found id) = some id
held (answered id) = some id

-- What the reservations keep.
pub record IsExclusive (s : Decisions) : Type 0 where
  pub owned : (t : ℕ) (id : Text) → held (s.phase t) ≡ some id → lookup id s.inflight ≡ some t
  pub open_still : (t : ℕ) (id : Text) → s.phase t ≡ found id → Elem id s.pending ⊎ Elem id s.ended
  pub apart : (id : Text) → Elem id s.settled → ¬ Elem id s.pending
  pub once : Distinct s.settled

-- A call's new phase, and the others' phases.
set_phase_cases :
    (t u : ℕ) (p : Phase) (phase : ℕ → Phase)
    → ((u ≡ t) × (set_phase t p phase u ≡ p)) ⊎ ((u ≢ t) × (set_phase t p phase u ≡ phase u))
set_phase_cases t u p phase = elim (Bool-cases (u == t)) [
  | inl e ↦ inl ((==_iff u t).0 e, rw e refl)
  | inr e ↦ inr (λ q. ground (arith, ==_iff u t), rw e refl)
]

reserve-some :
    (id : Text) (t : ℕ) (m taken : Table ℕ)
    → reserve id t m ≡ some taken
    → (lookup id m ≡ none) × (taken ≡ insert id t m)
unfolding reserve
reserve-some id t m taken h = elim (Option-cases (lookup id m)) [
  | inl n ↦ (n, grind (arith, rw (n, reserve) at h))
  | inr (x, e) ↦ absurd (grind (arith, rw (e, reserve) at h))
]

lookup-release : (id j : Text) (m : Table ℕ) → id ≢ j → lookup j (release id m) ≡ lookup j m
unfolding release
lookup-release id j m n = elim (Option-cases (lookup id m)) [
  | inl e ↦ rw (e, release) refl
  | inr (x, e) ↦ rw (e, release) (ground (arith, lookup-delete id j m, text_eq_iff id j))
]

lookup-insert_other :
    (id j : Text) (t : ℕ) (m : Table ℕ) → id ≢ j → lookup j (insert id t m) ≡ lookup j m
lookup-insert_other id j t m n = ground (arith, lookup-insert id j t m, text_eq_iff id j)

lookup-insert_same : (id : Text) (t : ℕ) (m : Table ℕ) → lookup id (insert id t m) ≡ some t
lookup-insert_same id t m = ground (arith, lookup-insert id id t m, text_eq_refl id)

pub Elem-without : (id j : Text) (ids : List Text) → Elem j (without id ids) → (id ≢ j) × Elem j ids
Elem-without id j ids m =
    let (e, n) = Elem-filter j (λ k. not (text_eq id k)) ids m in
    (λ q. ground (arith, (text_eq_iff id j).1 q, n), e)

pub Elem-without_intro :
    (id j : Text) (ids : List Text) → id ≢ j → Elem j ids → Elem j (without id ids)
Elem-without_intro id j ids n m =
    Elem-filter_intro j (λ k. not (text_eq id k)) ids m (ground (arith, text_eq_iff id j))

pub same_some : {A : Type 0} {a b : A} → some a ≡ some b → a ≡ b
same_some h = grind (arith, h)

-- A call that goes on with its approval, and a call that ends.
module _ (s : Decisions) (i : IsExclusive s) where
  owned_on :
      (t u : ℕ) (id j : Text) (p : Phase)
      → held (s.phase t) ≡ some id
      → held p ≡ some id
      → held (set_phase t p s.phase u) ≡ some j
      → lookup j s.inflight ≡ some u
  owned_on t u id j p h q e = elim (set_phase_cases t u p s.phase) [
    | inl (same, k) ↦
        i.owned u j (ap (λ z. held (s.phase z)) same ∙ h ∙ (sym q ∙ ap held (sym k) ∙ e))
    | inr (_, k) ↦ i.owned u j (ap held (sym k) ∙ e)
  ]

  owned_off :
      (t u : ℕ) (id j : Text)
      → held (s.phase t) ≡ some id
      → held (set_phase t over s.phase u) ≡ some j
      → lookup j (release id s.inflight) ≡ some u
  owned_off t u id j h e = elim (set_phase_cases t u over s.phase) [
    | inl (_, k) ↦ absurd (grind (arith, ap held (sym k) ∙ e))
    | inr (n, k) ↦
        let mine = i.owned u j (ap held (sym k) ∙ e) in
        lookup-release id j s.inflight (λ q. n (same_some (sym mine ∙ (rw⁻¹ q (i.owned t id h)))))
        ∙ mine
  ]

  -- What an approval that has been found is, where a call's phase changes and the gateway does not.
  found_on :
      (t u : ℕ) (j : Text) (p : Phase)
      → ((k : Text) → p ≡ found k → Elem k s.pending ⊎ Elem k s.ended)
      → set_phase t p s.phase u ≡ found j
      → Elem j s.pending ⊎ Elem j s.ended
  found_on t u j p h e = elim (set_phase_cases t u p s.phase) [
    | inl (_, k) ↦ h j (sym k ∙ e)
    | inr (_, k) ↦ i.open_still u j (sym k ∙ e)
  ]

  -- Two calls have not reserved one approval.
  pub alone :
      (t u : ℕ) (id : Text) → held (s.phase t) ≡ some id → held (s.phase u) ≡ some id → t ≡ u
  alone t u id h k = same_some (sym (i.owned t id h) ∙ i.owned u id k)

  -- The calls' steps that leave the gateway as it is.
  pub goes_on :
      (t : ℕ) (id : Text) (p : Phase)
      → held (s.phase t) ≡ some id
      → held p ≡ some id
      → ((k : Text) → p ≡ found k → Elem k s.pending ⊎ Elem k s.ended)
      → IsExclusive (record s { phase = set_phase t p s.phase })
  goes_on t id p h q f = record {
    owned = λ u j. owned_on t u id j p h q;
    open_still = λ u j. found_on t u j p f;
    apart = i.apart;
    once = i.once;
  }

  pub ends_call :
      (t : ℕ) (id : Text)
      → held (s.phase t) ≡ some id
      → IsExclusive
          (record s { inflight = release id s.inflight; phase = set_phase t over s.phase })
  ends_call t id h = record {
    owned = λ u j. owned_off t u id j h;
    open_still = λ u j. found_on t u j over (λ k e. absurd (grind (arith, e)));
    apart = i.apart;
    once = i.once;
  }

  owned_new :
      (t u : ℕ) (id j : Text) (taken : Table ℕ)
      → (lookup id s.inflight ≡ none) × (taken ≡ insert id t s.inflight)
      → held (set_phase t (holding id) s.phase u) ≡ some j
      → lookup j taken ≡ some u
  owned_new t u id j taken (free, q) e = elim (set_phase_cases t u (holding id) s.phase) [
    | inl (same, k) ↦
        let own : id ≡ j = same_some (ap held (sym k) ∙ e) in
        ap (lookup j) q
        ∙ subst (λ z. lookup z (insert id t s.inflight) ≡ some u) own
            (lookup-insert_same id t s.inflight ∙ ap some (sym same))
    | inr (_, k) ↦
        let mine = i.owned u j (ap held (sym k) ∙ e) in
        ap (lookup j) q
        ∙ lookup-insert_other id j t s.inflight
            (λ h. absurd (grind (arith, sym free ∙ ap (λ z. lookup z s.inflight) h ∙ mine)))
        ∙ mine
  ]

  pub begins :
      (t : ℕ) (id : Text) (taken : Table ℕ)
      → s.phase t ≡ fresh
      → reserve id t s.inflight ≡ some taken
      → IsExclusive (record s { inflight = taken; phase = set_phase t (holding id) s.phase })
  begins t id taken f r = record {
    owned = λ u j. owned_new t u id j taken (reserve-some id t s.inflight taken r);
    open_still = λ u j. found_on t u j (holding id) (λ k e. absurd (grind (arith, e)));
    apart = i.apart;
    once = i.once;
  }

  still_open :
      (t u : ℕ) (id j : Text)
      → s.phase t ≡ found id
      → set_phase t (answered id) s.phase u ≡ found j
      → Elem j (without id s.pending) ⊎ Elem j s.ended
  still_open t u id j f e = elim (set_phase_cases t u (answered id) s.phase) [
    | inl (_, k) ↦ absurd (grind (arith, sym k ∙ e))
    | inr (n, k) ↦
        let own = sym k ∙ e in
        let other : id ≢ j = λ q. n (alone u t id (ap held (own ∙ ap found (sym q))) (ap held f)) in
        elim (i.open_still u j own) [
          | inl m ↦ inl (Elem-without_intro id j s.pending other m)
          | inr m ↦ inr m
        ]
  ]

  pub settles :
      (t : ℕ) (id : Text)
      → s.phase t ≡ found id
      → Elem id s.pending
      → IsExclusive (record s {
        phase = set_phase t (answered id) s.phase;
        pending = without id s.pending;
        settled = id ∷ s.settled;
      })
  settles t id f m = record {
    owned = λ u j. owned_on t u id j (answered id) (ap held f) refl;
    open_still = λ u j. still_open t u id j f;
    apart = λ j h k.
        let (n, e) = Elem-without id j s.pending k in
        elim h [ inl q ↦ n (sym q) | inr g ↦ i.apart j g e ];
    once = (λ h. i.apart id h m, i.once);
  }
