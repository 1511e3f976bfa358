-- ===== src/Approvals/Applying.antt =====
-- PreTurn of internal/server/approvals.go fails closed, against a gateway that compares and sets.
use cubepilot.Prelude.{
  ℕ, zero, suc, ◌≡◌, refl, ap, sym, ◌∙◌, subst, Bool, true, false, not, ◌&&◌, ◌||◌, List, [], ◌∷◌,
  Option, none, some, Text, is_empty, text_eq, text_eq_iff, text_eq_cases, Table, lookup, insert,
  lookup-insert, arith, ◌⊎◌, inl, inr, if◌then◌else◌, Bool-cases, if_elim, ◌≢◌, utf8, map, filter,
}
use cubepilot.Allowlist.{AllowlistRule}
use cubepilot.Approvals.Gating.{
  ApprovalsFile, ApprovalsSnapshot, ApprovalAgentPolicy, ApprovalDefaults, AllowlistEntry, no_agent,
  to_ws_entries, policy_none, policy_allowlist, policy_always_ask, main_agent, with_policy, base_of,
  Gateway, set_policy, apply_policy_once, attempts, apply_policy, note_revision, gate, pre_turn,
}

-- What is asked of a gateway, whatever other clients do between its calls: `last` is the snapshot that
-- the last accepted set has replaced, with the file that it stored.
pub record IsComparing {W : Type 0} (g : Gateway W)
    (last : W → Option (ApprovalsSnapshot × ApprovalsFile)) (genuine : ApprovalsSnapshot → Type 0)
    : Type 0 where
  -- A read gives what is stored.
  pub reads : (w w1 : W) (s : ApprovalsSnapshot) → g.get w ≡ (some s, w1) → genuine s
  -- An accepted set has replaced a stored file of the hash given.
  pub sets :
      (f : ApprovalsFile) (base : Text) (w w1 : W)
      → g.set f base w ≡ (true, w1)
      → (s : ApprovalsSnapshot) × genuine s × (base_of s ≡ base) × (last w1 ≡ some (s, f))
  -- Stored files of one hash are one file.
  pub hashes :
      (s t : ApprovalsSnapshot) → genuine s → genuine t → base_of s ≡ base_of t → s.file ≡ t.file

-- The fields of the main agent beside its rules; all are empty where there is no such agent.
abbrev pub main_fields : Table ApprovalAgentPolicy → ApprovalDefaults
main_fields m = elim (lookup main_agent m) [
  | none ↦ record { security = []; ask = []; ask_fallback = []; auto_allow_skills = none }
  | some a ↦ a.fields
]

-- The rules with a command, as the gateway takes them.
abbrev pub entries_of : List AllowlistRule → List AllowlistEntry
entries_of allow =
    map
      (λ (r : AllowlistRule). record {
        id = [];
        pattern = r.pattern;
        arg_pattern = r.arg_pattern;
        source = [];
      })
      (filter (λ (r : AllowlistRule). not (is_empty r.pattern)) allow)

to_ws_entries_lem : (allow : List AllowlistRule) → to_ws_entries allow ≡ entries_of allow
unfolding to_ws_entries
to_ws_entries_lem [] = refl
to_ws_entries_lem (r ∷ rs) = elim (Bool-cases (is_empty r.pattern)) [
  | inl t ↦ rw t (to_ws_entries_lem rs)
  | inr f ↦ rw f (
      ap
        (λ z.
          (record { id = []; pattern = r.pattern; arg_pattern = r.arg_pattern; source = [] }) ∷ z)
        (to_ws_entries_lem rs))
]

-- The agents' part of a file that carries a policy.
pub record IsApplied (pol : Text) (allow : List AllowlistRule) (old new : ApprovalsFile)
    : Type 0 where
  -- The rules of the main agent are the policy's, none where everything is asked for, and its other
  -- fields are as they were.
  pub main :
      (a : ApprovalAgentPolicy) × (lookup main_agent new.agents ≡ some a)
      × (a.allowlist ≡ (if text_eq pol (utf8 "AlwaysAsk") then [] else entries_of allow))
      × (a.fields ≡ main_fields old.agents)
  -- All else is as it was.
  pub others : (n : Text) → n ≢ main_agent → lookup n new.agents ≡ lookup n old.agents
  pub rest : (new.version ≡ old.version) × (new.socket ≡ old.socket) × (new.defaults ≡ old.defaults)

lookup_other :
    (n : Text) (a : ApprovalAgentPolicy) (m : Table ApprovalAgentPolicy)
    → n ≢ main_agent
    → lookup n (insert main_agent a m) ≡ lookup n m
lookup_other n a m d = ground (arith, lookup-insert main_agent n a m, text_eq_iff main_agent n)

lookup_main :
    (a : ApprovalAgentPolicy) (m : Table ApprovalAgentPolicy)
    → lookup main_agent (insert main_agent a m) ≡ some a
lookup_main a m =
    ground (arith, lookup-insert main_agent main_agent a m, text_eq_iff main_agent main_agent)

-- Where the revision is not to be applied, there is none, or it is the applied one.
revision_cases :
    (rev : Text) (o : Option Text)
    → (not (is_empty rev) && not (text_eq rev (elim o [ none ↦ [] | some r ↦ r ]))) ≡ false
    → (rev ≡ []) ⊎ (o ≡ some rev)
unfolding text_eq
revision_cases [] o h = inl refl
revision_cases (c ∷ rev) none h = absurd (grind (arith, h))
revision_cases (c ∷ rev) (some r) h =
    inr (ap some (sym ((text_eq_iff (c ∷ rev) r).0 (ground (arith, h)))))

-- The policies that gate a turn, and those that do not.
gated_cases :
    (pol : Text)
    → (text_eq pol policy_allowlist || text_eq pol policy_always_ask) ≡ true
    → (pol ≡ policy_allowlist) ⊎ (pol ≡ policy_always_ask)
gated_cases pol h = elim (text_eq_cases pol policy_allowlist) [
  | inl (e, _) ↦ inl e
  | inr (_, f) ↦ inr ((text_eq_iff pol policy_always_ask).0 (ground (arith, h, f)))
]

free_cases :
    (pol : Text)
    → (is_empty pol || text_eq pol policy_none) ≡ true
    → (pol ≡ []) ⊎ (pol ≡ policy_none)
free_cases [] h = inl refl
free_cases (c ∷ pol) h = inr ((text_eq_iff (c ∷ pol) policy_none).0 h)

with_policy-IsApplied :
    (pol : Text) (allow : List AllowlistRule) (f : ApprovalsFile)
    → IsApplied pol allow f (with_policy pol allow f)
unfolding with_policy
with_policy-IsApplied pol allow f = record {
  main = (
    _,
    lookup_main _ f.agents,
    ap (λ z. if text_eq pol (utf8 "AlwaysAsk") then [] else z) (to_ws_entries_lem allow),
    kept (lookup main_agent f.agents),
  );
  others = λ n d. lookup_other n _ f.agents d;
  rest = (refl, refl, refl);
}
  where
    kept :
        (o : Option ApprovalAgentPolicy)
        → let agent : ApprovalAgentPolicy = elim o [ none ↦ no_agent | some a ↦ a ] in
          let fields : ApprovalDefaults = elim o [
            | none ↦ record { security = []; ask = []; ask_fallback = []; auto_allow_skills = none }
            | some a ↦ a.fields
          ] in
          agent.fields ≡ fields
    kept none = refl
    kept (some a) = refl

module _ {W : Type 0} (g : Gateway W) (last : W → Option (ApprovalsSnapshot × ApprovalsFile))
    (genuine : ApprovalsSnapshot → Type 0) (i : IsComparing g last genuine) where
  -- The last accepted set has put the policy into the very file that it replaced.
  abbrev pub IsWritten : Text → List AllowlistRule → W → Type 0
  IsWritten pol allow w =
      (s : ApprovalsSnapshot) × (f : ApprovalsFile) × (last w ≡ some (s, f))
      × genuine s
      × IsApplied pol allow s.file f

  set_policy-IsWritten :
      (pol : Text) (allow : List AllowlistRule) (o : Option ApprovalsSnapshot) (w w1 : W)
      → ((s : ApprovalsSnapshot) → o ≡ some s → genuine s)
      → set_policy g pol allow o w ≡ (true, w1)
      → IsWritten pol allow w1
  unfolding set_policy
  set_policy-IsWritten pol allow none w w1 r h = absurd (grind (arith, h))
  set_policy-IsWritten pol allow (some s) w w1 r h =
      let f = with_policy pol allow s.file in
      let (t, gt, e, l) = i.sets f (base_of s) w w1 h in
      (
        t,
        f,
        l,
        gt,
        subst (λ z. IsApplied pol allow z f) (i.hashes s t (r s refl) gt (sym e))
            (with_policy-IsApplied pol allow s.file),
      )

  once-IsWritten :
      (pol : Text) (allow : List AllowlistRule) (w w1 : W)
      → apply_policy_once g pol allow w ≡ (true, w1)
      → IsWritten pol allow w1
  unfolding apply_policy_once
  once-IsWritten pol allow w w1 h =
      set_policy-IsWritten pol allow (g.get w).0 (g.get w).1 w1
        (λ s e. i.reads w (g.get w).1 s (ap (λ z. (z, (g.get w).1)) e)) h

  attempts-IsWritten :
      (n : ℕ) (pol : Text) (allow : List AllowlistRule) (w w1 : W)
      → attempts g n pol allow w ≡ (true, w1)
      → IsWritten pol allow w1
  unfolding attempts
  attempts-IsWritten zero pol allow w w1 h = once-IsWritten pol allow w w1 h
  attempts-IsWritten (suc n) pol allow w w1 h =
      let (ok, v) = apply_policy_once g pol allow w in
      elim (Bool-cases ok) [
        | inl t ↦ once-IsWritten pol allow w w1 (ap (λ z. (z, v)) t ∙ (rw (t, attempts) at h))
        | inr f ↦
            let (on, u) = g.pause v in
            let k = rw (f, attempts) at h in
            elim (Bool-cases on) [
              | inl t ↦ attempts-IsWritten n pol allow u w1 (rw t at k)
              | inr e ↦ absurd (grind (arith, rw e at k))
            ]
      ]

  -- How PreTurn can end, with its revisions: it fails, and nothing is noted; it lets the turn run
  -- unguarded, under a policy that asks for nothing; or it has the turn guarded.
  pub data TurnSpec (resolved : Option (Text × (List AllowlistRule × Text))) (connected : Bool)
      (user : Text) (revs : Table Text) : Option Bool × (Table Text × W) → Type 0 where
    stopped : (w : W) → TurnSpec resolved connected user revs (none, (revs, w))
    free :
        (allow : List AllowlistRule) (rev : Text) (pol : Text) (w : W)
        → resolved ≡ some (pol, (allow, rev))
        → (pol ≡ []) ⊎ (pol ≡ policy_none)
        → TurnSpec resolved connected user revs (some false, (revs, w))
    -- The policy of the revision was applied before, or there is no revision to tell by.
    kept :
        (allow : List AllowlistRule) (rev pol : Text) (w : W)
        → resolved ≡ some (pol, (allow, rev))
        → (pol ≡ policy_allowlist) ⊎ (pol ≡ policy_always_ask)
        → connected ≡ true
        → (rev ≡ []) ⊎ (lookup user revs ≡ some rev)
        → TurnSpec resolved connected user revs (some true, (revs, w))
    applied :
        (allow : List AllowlistRule) (rev pol : Text) (w : W)
        → resolved ≡ some (pol, (allow, rev))
        → (pol ≡ policy_allowlist) ⊎ (pol ≡ policy_always_ask)
        → connected ≡ true
        → IsWritten pol allow w
        → TurnSpec resolved connected user revs (some true, (insert user rev revs, w))

  module _ (resolved : Option (Text × (List AllowlistRule × Text))) (connected : Bool) (user : Text)
      (revs : Table Text) where
    note_revision-TurnSpec :
        (allow : List AllowlistRule) (rev pol : Text) (o : Bool × W)
        → resolved ≡ some (pol, (allow, rev))
        → (pol ≡ policy_allowlist) ⊎ (pol ≡ policy_always_ask)
        → connected ≡ true
        → ((w : W) → o ≡ (true, w) → IsWritten pol allow w)
        → TurnSpec resolved connected user revs (note_revision g user rev revs o)
    unfolding note_revision
    note_revision-TurnSpec allow rev pol (true, w) r p c h =
        applied allow rev pol w r p c (h w refl)
    note_revision-TurnSpec allow rev pol (false, w) r p c h = stopped w

    gate-TurnSpec :
        (allow : List AllowlistRule) (rev pol : Text) (w : W)
        → resolved ≡ some (pol, (allow, rev))
        → (pol ≡ policy_allowlist) ⊎ (pol ≡ policy_always_ask)
        → TurnSpec resolved connected user revs (gate g connected user pol allow rev revs w)
    unfolding gate apply_policy
    gate-TurnSpec allow rev pol w r p =
        let P = TurnSpec resolved connected user revs in
        if_elim P (not connected) (none, (revs, w)) _ (λ _. stopped w)
          (λ c.
            if_elim P _ _ (some true, (revs, w))
              (λ _.
                note_revision-TurnSpec allow rev pol (attempts g 2 pol allow w) r p
                  (ground (arith, c)) (λ w1. attempts-IsWritten 2 pol allow w w1))
              (λ k.
                kept allow rev pol w r p (ground (arith, c))
                  (revision_cases rev (lookup user revs) k)))

    pre_turn_on :
        (o : Option (Text × (List AllowlistRule × Text))) (w : W)
        → resolved ≡ o
        → TurnSpec resolved connected user revs (pre_turn g o connected user revs w)
    unfolding pre_turn
    pre_turn_on none w r = stopped w
    pre_turn_on (some (pol, (allow, rev))) w r =
        let P = TurnSpec resolved connected user revs in
        if_elim P (text_eq pol policy_allowlist || text_eq pol policy_always_ask)
          (gate g connected user pol allow rev revs w) _
          (λ t. gate-TurnSpec allow rev pol w r (gated_cases pol t))
          (λ _.
            if_elim P (is_empty pol || text_eq pol policy_none) (some false, (revs, w))
              (none, (revs, w)) (λ t. free allow rev pol w r (free_cases pol t)) (λ _. stopped w))

    -- For a gateway that compares and sets, whatever its other clients do, PreTurn fails closed: it lets a
    -- turn run unguarded only where the policy was resolved and asks for nothing. A turn that runs guarded
    -- has a connection, and where the revision is noted as applied now, the last accepted set has put the
    -- policy's rules into the main agent of the very file that it replaced and has kept all else of it.
    -- Where PreTurn fails, nothing is noted as applied.
    pub pre_turn-TurnSpec :
        (w : W) → TurnSpec resolved connected user revs (pre_turn g resolved connected user revs w)
    pre_turn-TurnSpec w = pre_turn_on resolved w refl
