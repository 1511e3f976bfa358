-- ===== src/Approvals/Resolving.antt =====
-- Resolve of internal/server/approvals.go: what a decision changes, branch by branch.
use cubepilot.Prelude.{
  ◌≡◌, refl, ap, sym, ◌∙◌, subst, true, false, not, List, [], ◌∷◌, Option, none, some, Text, utf8,
  Elem, arith, inl, inr, if◌then◌else◌, Bool-cases, if_elim, Option-cases, text_eq, text_eq_cases,
  text_eq-ne, ◌≢◌, Bool,
}
use cubepilot.Approvals.{
  ApprovalRequested, PendingApproval, recorded, canonical_session_key, project_approval, pending,
  find_approval, ResolveError, bad_decision, wait_over, no_channel, not_pending, gateway_failed,
  Effect, sent, resolved_event, Listing, unlisted, listed, Answers, Resolution, failed, settled,
  is_decision, is_approval, resolve_approval, record_decision, conclude, decide, resolve,
  resolve_listed,
}
use cubepilot.Approvals.Ordering.{pending_lem, find_approval-found}

-- The word that the gateway is told for a decision, and whether the decision lets the command pass.
pub data Decided (d : Text) : Text → Bool → Type 0 where
  approves : d ≡ utf8 "approve" → Decided d (utf8 "allow-once") true
  approves_always : d ≡ utf8 "allow-always" → Decided d (utf8 "allow-once") true
  rejects : d ≡ utf8 "reject" → Decided d (utf8 "deny") false

-- What the ledger is told, where the service has one.
abbrev pub logged : Answers → Text → Text → Text → Text → Bool → List Effect
logged a user key id command allowed =
    if a.has_store
    then recorded user key id command (if allowed then utf8 "approved" else utf8 "rejected") ∷ []
    else []

-- One of the gateway's records, with the id, of the session.
pub record IsNamed (a : Answers) (key id : Text) (ev : ApprovalRequested) : Type 0 where
  pub evs : List ApprovalRequested
  pub listing : a.listing ≡ listed evs
  pub member : Elem ev evs
  pub same_id : ev.id ≡ id
  pub session : canonical_session_key ev.session_key ≡ key

-- Why nothing is changed, with the error that tells it.
pub data Hindered (a : Answers) (key id d : Text) : ResolveError → Type 0 where
  undecided :
      d ≢ utf8 "approve"
      → d ≢ utf8 "reject"
      → d ≢ utf8 "allow-always"
      → Hindered a key id d bad_decision
  late : a.reserved ≡ false → Hindered a key id d wait_over
  unread : (e : ResolveError) → a.listing ≡ unlisted e → Hindered a key id d e
  unnamed :
      (evs : List ApprovalRequested)
      → a.listing ≡ listed evs
      → ((ev : ApprovalRequested)
          → Elem ev evs
          → canonical_session_key ev.session_key ≡ key
          → ev.id ≢ id)
      → Hindered a key id d not_pending
  cut_off : a.connected ≡ false → Hindered a key id d no_channel

-- What a decision can come to: nothing is changed, for a reason; the gateway is told and refuses; or it
-- is told and accepts, and then the card is closed, with the verdict, and the ledger has the decision.
pub data ResolveSpec (a : Answers) (user key id d : Text) : Resolution × List Effect → Type 0 where
  unchanged :
      (e : ResolveError) → Hindered a key id d e → ResolveSpec a user key id d (failed e, [])
  refused :
      (ev : ApprovalRequested) (word reason : Text) (allowed : Bool)
      → Decided d word allowed
      → IsNamed a key id ev
      → a.refused ≡ some reason
      → ResolveSpec a user key id d (failed (gateway_failed reason), sent id word ∷ [])
  accepted :
      (ev : ApprovalRequested) (word : Text) (allowed : Bool)
      → Decided d word allowed
      → IsNamed a key id ev
      → a.connected ≡ true
      → a.refused ≡ none
      → ResolveSpec a user key id d (
        settled (project_approval ev),
        sent id word
            ∷ resolved_event key id (some allowed)
            ∷ logged a user key id ev.command allowed,
      )

abbrev verdict : Text → Text
verdict d = if is_approval d then utf8 "allow-once" else utf8 "deny"

decided : (d : Text) → is_decision d ≡ true → Decided d (verdict d) (is_approval d)
unfolding is_decision is_approval text_eq
decided d h = elim (text_eq_cases d (utf8 "approve")) [
  | inl (e, t) ↦ rw e (approves refl)
  | inr (_, f) ↦ elim (text_eq_cases d (utf8 "allow-always")) [
    | inl (e, t) ↦ rw e (approves_always refl)
    | inr (_, g) ↦ elim (text_eq_cases d (utf8 "reject")) [
      | inl (e, t) ↦ rw e (rejects refl)
      | inr (_, k) ↦ absurd (ground (arith, h, f, g, k))
    ]
  ]
]

undecided_lem :
    (a : Answers) (key id d : Text) → is_decision d ≡ false → Hindered a key id d bad_decision
unfolding is_decision
undecided_lem a key id d h =
    undecided (text_eq-ne _ _ (ground (arith, h))) (text_eq-ne _ _ (ground (arith, h)))
      (text_eq-ne _ _ (ground (arith, h)))

find_approval-none :
    (ps : List PendingApproval) (id : Text) (p : PendingApproval)
    → find_approval ps id ≡ none
    → Elem p ps
    → p.approval_id ≢ id
unfolding find_approval
find_approval-none (x ∷ ps) id p h m = elim (text_eq_cases x.approval_id id) [
  | inl (e, t) ↦ absurd (ground (arith, h, t))
  | inr (n, f) ↦ elim m [
    | inl q ↦ λ e. n (ap (λ z. z.approval_id) (sym q) ∙ e)
    | inr i ↦ find_approval-none ps id p (rw (f, find_approval) at h) i
  ]
]
find_approval-none [] id p h m = absurd m

abbrev word : Text → Text
word d = if is_approval d then utf8 "approve" else utf8 "reject"

-- The call, without a connection, and as the gateway accepts or refuses it.
unconnected :
    (a : Answers) (id d : Text)
    → a.connected ≡ false
    → resolve_approval a id (word d) ≡ ([], some no_channel)
unfolding resolve_approval
unconnected a id d c = rw (c, resolve_approval) refl

agrees :
    (a : Answers) (id d : Text)
    → a.connected ≡ true
    → a.refused ≡ none
    → resolve_approval a id (word d) ≡ (sent id (verdict d) ∷ [], none)
unfolding resolve_approval text_eq
agrees a id d c o = elim (Bool-cases (is_approval d)) [
  | inl t ↦ rw t (rw (c, resolve_approval) (rw o refl))
  | inr f ↦ rw f (rw (c, resolve_approval) (rw o refl))
]

refuses :
    (a : Answers) (id d reason : Text)
    → a.connected ≡ true
    → a.refused ≡ some reason
    → resolve_approval a id (word d) ≡ (sent id (verdict d) ∷ [], some (gateway_failed reason))
unfolding resolve_approval text_eq
refuses a id d reason c o = elim (Bool-cases (is_approval d)) [
  | inl t ↦ rw t (rw (c, resolve_approval) (rw o refl))
  | inr f ↦ rw f (rw (c, resolve_approval) (rw o refl))
]

decide-ResolveSpec :
    (a : Answers) (user key id d : Text) (ev : ApprovalRequested)
    → is_decision d ≡ true
    → IsNamed a key id ev
    → ResolveSpec a user key id d (decide a user id (project_approval ev) d)
unfolding decide conclude project_approval record_decision
decide-ResolveSpec a user key id d ev v n = elim (Bool-cases a.connected) [
  | inr f ↦ called ([], some no_channel) (unconnected a id d f) (unchanged no_channel (cut_off f))
  | inl c ↦ elim (Option-cases a.refused) [
    | inl o ↦ called (sent id (verdict d) ∷ [], none) (agrees a id d c o) (closed c o)
    | inr (reason, o) ↦
        called (sent id (verdict d) ∷ [], some (gateway_failed reason)) (refuses a id d reason c o)
          (refused ev (verdict d) reason (is_approval d) (decided d v) n o)
  ]
]
  where
    Spec : Resolution × List Effect → Type 0
    Spec = ResolveSpec a user key id d

    called :
        (z : List Effect × Option ResolveError)
        → resolve_approval a id (word d) ≡ z
        → Spec (conclude a user (project_approval ev) (is_approval d) z)
        → Spec (decide a user id (project_approval ev) d)
    called z e s =
        subst (λ y. Spec (conclude a user (project_approval ev) (is_approval d) y)) (sym e) s

    closed :
        a.connected ≡ true
        → a.refused ≡ none
        → Spec
            (conclude a user (project_approval ev) (is_approval d) (sent id (verdict d) ∷ [], none))
    closed c o =
        subst
          (λ (k, i). Spec (
            settled (project_approval ev),
            sent id (verdict d)
                ∷ resolved_event k i (some (is_approval d))
                ∷ logged a user k i ev.command (is_approval d),
          ))
          (rw (n.session, n.same_id) refl)
          (accepted ev (verdict d) (is_approval d) (decided d v) n c o)

resolve_listed-ResolveSpec :
    (a : Answers) (user key id d : Text) (l : Listing)
    → is_decision d ≡ true
    → a.listing ≡ l
    → ResolveSpec a user key id d (resolve_listed a user key id d l)
unfolding resolve_listed project_approval
resolve_listed-ResolveSpec a user key id d (unlisted e) v q = unchanged e (unread e q)
resolve_listed-ResolveSpec a user key id d (listed evs) v q =
    elim (Option-cases (find_approval (pending key evs) id)) [
      | inl o ↦
          rw (o, resolve_listed)
            (unchanged not_pending (
              unnamed evs q λ ev m k.
                find_approval-none (pending key evs) id (project_approval ev) o
                  (((pending_lem key evs).0 (project_approval ev)).1 (ev, m, k, refl))))
      | inr (p, o) ↦
          let (m, e) = find_approval-found (pending key evs) id p o in
          let (ev, i, k, s) = ((pending_lem key evs).0 p).0 m in
          rw (o, resolve_listed)
            (rw s (
              decide-ResolveSpec a user key id d ev v (record {
                evs = evs;
                listing = q;
                member = i;
                same_id = ap (λ z. z.approval_id) (sym s) ∙ e;
                session = k;
              })))
    ]

-- Whatever the gateway and the deadline do, Resolve sends at most one decision. It is the one asked
-- for, for the very id, and only where the gateway has just listed an approval with that id for that
-- session. Where the gateway refuses it, nothing else is changed; only where it has accepted, the card
-- of that approval is closed and the ledger told, with the same verdict. Where nothing is sent, the error
-- tells why: no such decision, no reservation, no list, no such approval in it, or no connection.
pub resolve-ResolveSpec :
    (a : Answers) (user key id d : Text) → ResolveSpec a user key id d (resolve a user key id d)
unfolding resolve
resolve-ResolveSpec a user key id d =
    if_elim (ResolveSpec a user key id d) (not (is_decision d)) _ _
      (λ h. unchanged bad_decision (undecided_lem a key id d (ground (arith, h))))
      (λ v.
        if_elim (ResolveSpec a user key id d) (not a.reserved) _ _
          (λ h. unchanged wait_over (late (ground (arith, h))))
          (λ _. resolve_listed-ResolveSpec a user key id d a.listing (ground (arith, v)) refl))
