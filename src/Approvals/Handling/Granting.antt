-- ===== src/Approvals/Handling/Granting.antt =====
-- handleApproval of internal/server/approvals.go: when a durable grant is made.
use cubepilot.Prelude.{
  arith, ◌≡◌, refl, ap, sym, ◌∙◌, Bool, true, not, ◌&&◌, List, [], ◌∷◌, Option, none, some, Text,
  utf8, Elem, ◌⊎◌, inl, inr, Bool-cases, if_elim, Option-cases, text_eq, text_eq_iff, is_empty,
}
use cubepilot.Allowlist.{AllowlistRule}
use cubepilot.Approvals.{
  ApprovalRequested, canonical_session_key, project_approval, Effect, sent, Answers, Resolution,
  resolve, resolved_event, is_approval, is_decision, has_session_key,
}
use cubepilot.Approvals.Resolving.{
  IsNamed, ResolveSpec, unchanged, refused, accepted, logged, Decided, approves, approves_always,
  rejects, resolve-ResolveSpec,
}
use cubepilot.Approvals.Handling.{
  GrantAnswers, Grant, Request, Response, refusal, derive_allow_always_rule, allowlist_always,
  grant_command, answer, decide_body, handle_approval,
}

-- What makes a grant right: the request asked for allow-always, the gateway had listed the approval
-- with that id for that session and, asked over a connection, has accepted the decision to let it pass
-- once, and rule and command are of the gateway's own record.
pub record IsGranted (a : Answers) (r : Request) (grant : Grant) (response : Response)
    : Type 0 where
  pub id : Text
  pub ev : ApprovalRequested
  pub asked : r.body ≡ some (id, utf8 "allow-always")
  pub named : IsNamed a (canonical_session_key r.key) id ev
  pub connected : a.connected ≡ true
  pub unrefused : a.refused ≡ none
  pub let_pass : Elem (sent id (utf8 "allow-once")) response.effects
  pub command : grant.1 ≡ ev.command
  pub rule : derive_allow_always_rule ev.command ≡ some grant.0
  pub succeeded : response.status ≡ 200

abbrev is_gated : GrantAnswers → Bool
is_gated g = g.has_client && (elim g.policy [ none ↦ true | some p ↦ text_eq p (utf8 "Allowlist") ])

allowlist_always-grant :
    (g : GrantAnswers) (command : Text) (rule : AllowlistRule) (grant : Grant)
    → Elem grant (allowlist_always g command rule).1
    → grant ≡ (rule, command)
unfolding allowlist_always
allowlist_always-grant g command rule grant m = elim (Bool-cases (is_gated g)) [
  | inl t ↦ only (grant ≡ (rule, command)) (rw (t, allowlist_always) at m)
  | inr f ↦ absurd (rw (f, allowlist_always) at m)
]
  where
    only : (B : Type 0) → B ⊎ ⊥ → B
    only B (inl e) = e
    only B (inr w) = absurd w

grant_command-grant :
    (g : GrantAnswers) (command : Text) (grant : Grant)
    → Elem grant (grant_command g command).1
    → (grant.1 ≡ command) × (derive_allow_always_rule command ≡ some grant.0)
unfolding grant_command
grant_command-grant g command grant m = elim (Option-cases (derive_allow_always_rule command)) [
  | inl o ↦ absurd (rw (o, grant_command) at m)
  | inr (rule, o) ↦
      let e = allowlist_always-grant g command rule grant (rw (o, grant_command) at m) in
      (ap (λ z. z.1) e, o ∙ ap (λ z. some z.0) (sym e))
]

allows :
    (d word : Text) (allowed : Bool)
    → Decided d word allowed
    → d ≡ utf8 "allow-always"
    → word ≡ utf8 "allow-once"
unfolding text_eq
allows d word allowed (approves e) h = refl
allows d word allowed (approves_always e) h = refl
allows d word allowed (rejects e) h =
    absurd (ground (arith, ap (λ z. text_eq z (utf8 "reject")) (sym e ∙ h)))

answer-grant :
    (a : Answers) (g : GrantAnswers) (user : Text) (r : Request) (id d : Text) (grant : Grant)
    (o : Resolution × List Effect)
    → r.body ≡ some (id, d)
    → ResolveSpec a user (canonical_session_key r.key) id d o
    → Elem grant (answer g d o).grants
    → IsGranted a r grant (answer g d o)
unfolding answer project_approval is_approval text_eq
answer-grant a g user r id d grant (_, _) b (unchanged e w) m = absurd m
answer-grant a g user r id d grant (_, _) b (refused ev word reason allowed v n f) m = absurd m
answer-grant a g user r id d grant (_, _) b (accepted ev word allowed v n u f) m =
    if_elim (λ z. Elem grant z.grants → IsGranted a r grant z) (text_eq d (utf8 "allow-always"))
      (record {
        status = 200;
        allowlisted = some (grant_command g ev.command).0;
        effects = told;
        grants = (grant_command g ev.command).1;
      })
      (record { status = 200; allowlisted = none; effects = told; grants = [] })
      (λ t h.
        let (c, e) = grant_command-grant g ev.command grant h in
        let always = (text_eq_iff d (utf8 "allow-always")).0 t in
        record {
          id = id;
          ev = ev;
          asked = b ∙ ap (λ z. some (id, z)) always;
          named = n;
          connected = u;
          unrefused = f;
          let_pass = inl (ap (λ z. sent id z) (sym (allows d word allowed v always)));
          command = c;
          rule = e;
          succeeded = refl;
        })
      (λ _ h. absurd h) m
  where
    told : List Effect
    told =
        sent id word
        ∷ resolved_event (canonical_session_key r.key) id (some allowed)
        ∷ logged a user (canonical_session_key r.key) id ev.command allowed

decide_body-grant :
    (a : Answers) (g : GrantAnswers) (user : Text) (r : Request) (id d : Text) (grant : Grant)
    → r.body ≡ some (id, d)
    → Elem grant (decide_body a g user (canonical_session_key r.key) id d).grants
    → IsGranted a r grant (decide_body a g user (canonical_session_key r.key) id d)
unfolding decide_body
decide_body-grant a g user r id d grant b =
    let P : Response → Type 0 = λ z. Elem grant z.grants → IsGranted a r grant z in
    let o = resolve a user (canonical_session_key r.key) id d in
    if_elim P (is_empty id) (refusal 400) _ (λ _ h. absurd h)
      (λ _.
        if_elim P (not (is_decision d)) (refusal 400) _ (λ _ h. absurd h)
          (λ _.
            answer-grant a g user r id d grant o b
              (resolve-ResolveSpec a user (canonical_session_key r.key) id d)))

-- Whatever a client posts: a durable grant is made only in answer to a request for allow-always, after
-- the gateway has listed the approval with the id of the request for that session and has accepted the
-- decision to let it pass once. Its command is that of the gateway's record, its rule is derived from
-- that command, and the answer is a success.
pub handle_approval-IsGranted :
    (a : Answers) (g : GrantAnswers) (user : Text) (r : Request) (grant : Grant)
    → Elem grant (handle_approval a g user r).grants
    → IsGranted a r grant (handle_approval a g user r)
unfolding handle_approval
handle_approval-IsGranted a g user r grant =
    let P : Response → Type 0 = λ z. Elem grant z.grants → IsGranted a r grant z in
    if_elim P (not r.is_post) (refusal 405) _ (λ _ h. absurd h)
      (λ _.
        if_elim P (not (has_session_key (canonical_session_key r.key))) (refusal 400) _
          (λ _ h. absurd h)
          (λ _.
            if_elim P (not r.has_service) (refusal 503) _ (λ _ h. absurd h)
              (λ _. of_body r.body refl)))
  where
    of_body :
        (b : Option (Text × Text))
        → r.body ≡ b
        → let z : Response = elim b [
          | none ↦ refusal 400
          | some (id, decision) ↦ decide_body a g user (canonical_session_key r.key) id decision
        ] in
          Elem grant z.grants → IsGranted a r grant z
    of_body none e h = absurd h
    of_body (some (id, d)) e h = decide_body-grant a g user r id d grant e h
