-- ===== src/Turns/Policy.antt =====
-- The start of a turn with its policy, of internal/server/gateway.go and internal/server/approvals.go:
-- when a message is sent, and in which mode of its session.
use cubepilot.Prelude.{
  ◌≡◌, ◌≢◌, refl, ap, sym, ◌∙◌, Bool, true, false, not, ◌&&◌, ◌||◌, List, [], Option, none, some,
  Text, utf8, is_empty, text_eq, Table, lookup, if◌then◌else◌, arith, if_elim,
}
use cubepilot.Allowlist.{AllowlistRule}
use cubepilot.Approvals.Gating
use cubepilot.Approvals.Gating.{
  policy_none, policy_allowlist, policy_always_ask, gate, pre_turn, note_revision,
}
use cubepilot.Turns.Starting.{
  SessionState, SessionSettingsPatch, desired_permission, settings_patch, Channel, Start, unsent,
  acknowledged, send_message, subscribe_and_send, apply_settings, settle_and_send, open_and_send,
  run_live_turn, run_behind, run_turn,
}
use cubepilot.Turns.Guarding.{IsPatching, Sends, unsent_at, sent_from, run_live_turn-Sends}

-- The mode that a policy asks for.
abbrev pub required_mode : Text → Text
required_mode pol =
    if text_eq pol policy_allowlist || text_eq pol policy_always_ask then utf8 "guarded" else []

-- The policies that are known: those that are gated, and none.
abbrev pub is_known : Text → Bool
is_known pol =
    text_eq pol policy_allowlist
    || text_eq pol policy_always_ask
    || is_empty pol
    || text_eq pol policy_none

module _ {W : Type 0} (g : Gating.Gateway W) where
  note_revision-guarded :
      (user rev : Text) (revs : Table Text) (z : Bool × W) (b : Bool)
      → (note_revision g user rev revs z).0 ≡ some b
      → b ≡ true
  unfolding note_revision
  note_revision-guarded user rev revs (true, w) b h = ground (arith, h)
  note_revision-guarded user rev revs (false, w) b h = absurd (ground (arith, h))

  gate-guarded :
      (connected : Bool) (user pol : Text) (allow : List AllowlistRule) (rev : Text)
      (revs : Table Text) (w : W) (b : Bool)
      → (gate g connected user pol allow rev revs w).0 ≡ some b
      → b ≡ true
  unfolding gate
  gate-guarded connected user pol allow rev revs w b =
      if_elim P (not connected) _ _ (λ _ h. absurd (ground (arith, h)))
        (λ _.
          if_elim P (not (is_empty rev) && not (text_eq rev applied))
            (note_revision g user rev revs (Gating.apply_policy g pol allow w))
            (some true, (revs, w))
            (λ _. note_revision-guarded user rev revs (Gating.apply_policy g pol allow w) b)
            (λ _ h. ground (arith, h)))
    where
      P : Option Bool × (Table Text × W) → Type 0
      P z = z.0 ≡ some b → b ≡ true

      applied : Text
      applied = elim (lookup user revs) [ none ↦ [] | some r ↦ r ]

  -- A turn that PreTurn lets run is guarded exactly as its policy asks.
  pre_turn-required :
      (resolved : Option (Text × (List AllowlistRule × Text))) (connected : Bool) (user : Text)
      (revs : Table Text) (w : W) (b : Bool)
      → (pre_turn g resolved connected user revs w).0 ≡ some b
      → (pol : Text) × (allow : List AllowlistRule) × (rev : Text) × (resolved
          ≡ some (pol, (allow, rev)))
        × (is_known pol ≡ true)
        × (desired_permission b ≡ required_mode pol)
  unfolding pre_turn desired_permission
  pre_turn-required none connected user revs w b h = absurd (ground (arith, h))
  pre_turn-required (some (pol, (allow, rev))) connected user revs w b h =
      let found = by_policy h in (pol, allow, rev, refl, found.0, found.1)
    where
      P : Option Bool × (Table Text × W) → Type 0
      P z = z.0 ≡ some b → (is_known pol ≡ true) × (desired_permission b ≡ required_mode pol)

      mode :
          (x y : Bool)
          → b ≡ x
          → (text_eq pol policy_allowlist || text_eq pol policy_always_ask) ≡ x
          → desired_permission b ≡ required_mode pol
      mode x y e q = ap desired_permission e ∙ ap desired_permission (sym q)

      either : (x y u v : Bool) → (x || y) ≡ true → (x || y || u || v) ≡ true
      either x y u v t = ground (arith, t)

      other : (x y u v : Bool) → (u || v) ≡ true → (x || y || u || v) ≡ true
      other x y u v t = ground (arith, t)

      known_gated :
          (text_eq pol policy_allowlist || text_eq pol policy_always_ask) ≡ true
          → is_known pol ≡ true
      known_gated t =
          either (text_eq pol policy_allowlist) (text_eq pol policy_always_ask) (is_empty pol)
            (text_eq pol policy_none) t

      known_none : (is_empty pol || text_eq pol policy_none) ≡ true → is_known pol ≡ true
      known_none t =
          other (text_eq pol policy_allowlist) (text_eq pol policy_always_ask) (is_empty pol)
            (text_eq pol policy_none) t

      by_policy : P (pre_turn g (some (pol, (allow, rev))) connected user revs w)
      by_policy =
          if_elim P (text_eq pol policy_allowlist || text_eq pol policy_always_ask) _ _
            (λ t k. (
              known_gated t,
              mode true true (gate-guarded connected user pol allow rev revs w b k) t,
            ))
            (λ f.
              if_elim P (is_empty pol || text_eq pol policy_none) _ _
                (λ t k. (known_none t, mode false false (ground (arith, k)) f))
                (λ _ k. absurd (ground (arith, k))))

-- What a turn with its policy comes to: no message is sent; or one is, with a policy that is resolved
-- and known, from a state in which the session runs the wanted model in the mode that the policy asks
-- for.
pub data GuardSpec {W : Type 0} (c : Channel W) (settings : Text → W → SessionState)
    (resolved : Option (Text × (List AllowlistRule × Text))) (key message idem model : Text)
    : Start × (Table Text × W) → Type 0 where
  no_message :
      (revs : Table Text) (w : W)
      → GuardSpec c settings resolved key message idem model (unsent, (revs, w))
  message_from :
      (pol rev : Text) (allow : List AllowlistRule) (revs : Table Text) (w : W)
      → resolved ≡ some (pol, (allow, rev))
      → is_known pol ≡ true
      → settings key w ≡ record { model = model; permission_mode = required_mode pol }
      → GuardSpec c settings resolved key message idem model (
        (acknowledged idem (c.send key message idem w)).0,
        (revs, (acknowledged idem (c.send key message idem w)).1),
      )

-- For a gateway that sets what it is told, where no other client changes a session's settings: whichever
-- calls fail, the message of a turn is sent, once at most, only where the user's policy is resolved and
-- known, and from a state in which the session is guarded exactly if the policy asks for it, with the
-- model of the turn. So no turn runs in the mode or with the model of an earlier one.
pub run_turn-GuardSpec :
    {W : Type 0} (c : Channel W) (settings : Text → W → SessionState) (g : Gating.Gateway W)
    (resolved : Option (Text × (List AllowlistRule × Text))) (connected : Bool) (user : Text)
    (revs : Table Text) (key message idem model : Text) (w : W)
    → IsPatching c settings
    → GuardSpec c settings resolved key message idem model
        (run_turn c g resolved connected user revs key message idem model w)
unfolding run_turn run_behind
run_turn-GuardSpec {W} c settings g resolved connected user revs key message idem model w honest =
    behind (pre_turn g resolved connected user revs w) refl
  where
    Spec : Start × (Table Text × W) → Type 0
    Spec = GuardSpec c settings resolved key message idem model

    sends :
        (b : Bool) (pol rev : Text) (allow : List AllowlistRule) (revs' : Table Text)
        (z : Start × W)
        → resolved ≡ some (pol, (allow, rev))
        → is_known pol ≡ true
        → desired_permission b ≡ required_mode pol
        → Sends c settings key message idem
            (record { model = model; permission_mode = desired_permission b })
            z
        → Spec (z.0, (revs', z.1))
    sends b pol rev allow revs' _ r k m (unsent_at w') = no_message revs' w'
    sends b pol rev allow revs' _ r k m (sent_from w' s) =
        message_from pol rev allow revs' w' r k
          (s ∙ ap (λ z. record { model = model; permission_mode = z }) m)

    behind :
        (z : Option Bool × (Table Text × W))
        → pre_turn g resolved connected user revs w ≡ z
        → Spec (run_behind c key message idem model z)
    behind (none, (revs', w')) e = no_message revs' w'
    behind (some b, (revs', w')) e =
        let (pol, allow, rev, r, k, m) =
          pre_turn-required g resolved connected user revs w b (ap (λ z. z.0) e) in
        sends b pol rev allow revs' (run_live_turn c key message idem model b w') r k m
          (run_live_turn-Sends c settings honest key message idem model b w')

-- A channel none of whose preparing calls fails.
pub record IsUp {W : Type 0} (c : Channel W) : Type 0 where
  pub connects : (w : W) → (c.conn w).0 ≡ true
  pub creates : (key : Text) (w : W) → (c.create_session key w).0 ≢ none
  pub accepts :
      (key : Text) (p : SessionSettingsPatch) (w : W) → (c.patch_session_settings key p w).0 ≡ true
  pub subscribes : (key : Text) (w : W) → (c.subscribe key w).0 ≡ true

applied_if :
    {W : Type 0} (c : Channel W) (key : Text) (p : SessionSettingsPatch) (w : W)
    → (c.patch_session_settings key p w).0 ≡ true
    → (apply_settings c key p w).0 ≡ true
unfolding apply_settings
applied_if {W} c key p w h =
    if_elim {A = Bool × W} (λ z. z.0 ≡ true) (p.model.is_set || p.permission_mode.is_set) _ _
      (λ _. h) (λ _. refl)

run_live_turn-sends :
    {W : Type 0} (c : Channel W) (key message idem model : Text) (guarded : Bool) (w : W)
    → IsUp c
    → (run_live_turn c key message idem model guarded w).0 ≢ unsent
unfolding run_live_turn open_and_send settle_and_send subscribe_and_send send_message acknowledged
run_live_turn-sends {W} c key message idem model guarded w up = connected (c.conn w) (up.connects w)
  where
    acked : (z : Option Text × W) → (acknowledged idem z).0 ≢ unsent
    acked (none, w') h = ground (arith, h)
    acked (some id, w') h = ground (arith, h)

    subscribed : (z : Bool × W) → z.0 ≡ true → (send_message c key message idem z).0 ≢ unsent
    subscribed (false, w') e = absurd (ground (arith, e))
    subscribed (true, w') e = acked (c.send key message idem w')

    settled : (z : Bool × W) → z.0 ≡ true → (subscribe_and_send c key message idem z).0 ≢ unsent
    settled (false, w') e = absurd (ground (arith, e))
    settled (true, w') e = subscribed (c.subscribe key w') (up.subscribes key w')

    applied : (p : SessionSettingsPatch) (w' : W) → (apply_settings c key p w').0 ≡ true
    applied p w' = applied_if c key p w' (up.accepts key p w')

    created :
        (z : Option SessionState × W)
        → z.0 ≢ none
        → (settle_and_send c key message idem model guarded z).0 ≢ unsent
    created (none, w') n = absurd (n refl)
    created (some s, w') n =
        settled (apply_settings c key (settings_patch s model guarded) w')
          (applied (settings_patch s model guarded) w')

    connected :
        (z : Bool × W) → z.0 ≡ true → (open_and_send c key message idem model guarded z).0 ≢ unsent
    connected (false, w') e = absurd (ground (arith, e))
    connected (true, w') e = created (c.create_session key w') (up.creates key w')

-- Where PreTurn lets a turn run and none of the calls that prepare it fails, the message is sent.
pub run_turn-sends :
    {W : Type 0} (c : Channel W) (g : Gating.Gateway W)
    (resolved : Option (Text × (List AllowlistRule × Text))) (connected : Bool) (user : Text)
    (revs : Table Text) (key message idem model : Text) (w : W)
    → IsUp c
    → (pre_turn g resolved connected user revs w).0 ≢ none
    → (run_turn c g resolved connected user revs key message idem model w).0 ≢ unsent
unfolding run_turn run_behind
run_turn-sends {W} c g resolved connected user revs key message idem model w up =
    behind (pre_turn g resolved connected user revs w)
  where
    behind :
        (z : Option Bool × (Table Text × W))
        → z.0 ≢ none
        → (run_behind c key message idem model z).0 ≢ unsent
    behind (none, (revs', w')) n = absurd (n refl)
    behind (some b, (revs', w')) n = run_live_turn-sends c key message idem model b w' up
