-- ===== src/Turns/Guarding.antt =====
-- The start of a turn with its policy, of internal/server/live.go, internal/server/gateway.go and
-- internal/server/approvals.go: with which settings of its session a message is sent.
use cubepilot.Prelude.{
  ◌≡◌, refl, ap, ◌∙◌, Bool, true, false, ◌||◌, Option, none, some, Text, text_eq_iff, arith,
  if_elim,
}
use cubepilot.Turns.Starting.{
  SessionState, SessionSettingsPatch, desired_permission, settings_patch, patched, Channel, Start,
  unsent, acknowledged, send_message, subscribe_and_send, apply_settings, settle_and_send,
  open_and_send, run_live_turn,
}

-- What the gateway documents of a session's settings, where no other client changes them meanwhile:
-- sessions.create gives them, an accepted patch sets what it names at once and leaves the rest, and a
-- subscription changes none.
pub record IsPatching {W : Type 0} (c : Channel W) (settings : Text → W → SessionState)
    : Type 0 where
  pub created :
      (key : Text) (s : SessionState) (w w' : W)
      → c.create_session key w ≡ (some s, w')
      → settings key w' ≡ s
  pub patches :
      (key : Text) (p : SessionSettingsPatch) (w w' : W)
      → c.patch_session_settings key p w ≡ (true, w')
      → settings key w' ≡ patched p (settings key w)
  pub subscribed :
      (key : Text) (b : Bool) (w w' : W)
      → c.subscribe key w ≡ (b, w')
      → settings key w' ≡ settings key w

-- The patch brings every setting to what is wanted.
pub patched-settings_patch :
    (s : SessionState) (model : Text) (guarded : Bool)
    → patched (settings_patch s model guarded) s
      ≡ record { model = model; permission_mode = desired_permission guarded }
unfolding patched settings_patch
patched-settings_patch s model guarded =
    ground
      (arith, text_eq_iff s.model model, text_eq_iff s.permission_mode (desired_permission guarded))

-- What a start comes to: no message is sent; or one is, from a state in which the session's settings are
-- the wanted ones, and the run is the one that it answers.
pub data Sends {W : Type 0} (c : Channel W) (settings : Text → W → SessionState)
    (key message idem : Text) (wanted : SessionState) : Start × W → Type 0 where
  unsent_at : (w : W) → Sends c settings key message idem wanted (unsent, w)
  sent_from :
      (w : W)
      → settings key w ≡ wanted
      → Sends c settings key message idem wanted (acknowledged idem (c.send key message idem w))

module _ {W : Type 0} (c : Channel W) (settings : Text → W → SessionState)
    (honest : IsPatching c settings) (key message idem model : Text) (guarded : Bool) where
  abbrev wanted : SessionState
  wanted = record { model = model; permission_mode = desired_permission guarded }

  abbrev Spec : Start × W → Type 0
  Spec = Sends c settings key message idem wanted

  subscribe_and_send-Sends :
      (z : Bool × W)
      → (z.0 ≡ true → settings key z.1 ≡ wanted)
      → Spec (subscribe_and_send c key message idem z)
  unfolding subscribe_and_send send_message
  subscribe_and_send-Sends (false, w) h = unsent_at w
  subscribe_and_send-Sends (true, w) h = answered (c.subscribe key w) refl
    where
      answered : (z : Bool × W) → c.subscribe key w ≡ z → Spec (send_message c key message idem z)
      answered (false, w') e = unsent_at w'
      answered (true, w') e = sent_from w' (honest.subscribed key true w w' e ∙ h refl)

  apply_settings-wanted :
      (s : SessionState) (w : W)
      → settings key w ≡ s
      → (apply_settings c key (settings_patch s model guarded) w).0 ≡ true
      → settings key (apply_settings c key (settings_patch s model guarded) w).1 ≡ wanted
  unfolding apply_settings settings_patch
  apply_settings-wanted s w e =
      if_elim {A = Bool × W} (λ z. z.0 ≡ true → settings key z.1 ≡ wanted)
        (p.model.is_set || p.permission_mode.is_set) _ _
        (λ _. answered (c.patch_session_settings key p w) refl) (λ f _. e ∙ kept f)
    where
      p : SessionSettingsPatch
      p = settings_patch s model guarded

      answered :
          (z : Bool × W)
          → c.patch_session_settings key p w ≡ z
          → z.0 ≡ true
          → settings key z.1 ≡ wanted
      answered (false, w') q h = absurd (ground (arith, h))
      answered (true, w') q h =
          honest.patches key p w w' q ∙ ap (patched p) e ∙ patched-settings_patch s model guarded

      kept : (p.model.is_set || p.permission_mode.is_set) ≡ false → s ≡ wanted
      kept f = ground (
        arith,
        f,
        text_eq_iff s.model model,
        text_eq_iff s.permission_mode (desired_permission guarded),
      )

  pub run_live_turn-Sends : (w : W) → Spec (run_live_turn c key message idem model guarded w)
  unfolding run_live_turn open_and_send settle_and_send
  run_live_turn-Sends w = connected (c.conn w)
    where
      created :
          (w1 : W) (z : Option SessionState × W)
          → c.create_session key w1 ≡ z
          → Spec (settle_and_send c key message idem model guarded z)
      created w1 (none, w2) e = unsent_at w2
      created w1 (some s, w2) e =
          subscribe_and_send-Sends (apply_settings c key (settings_patch s model guarded) w2)
            (apply_settings-wanted s w2 (honest.created key s w1 w2 e))

      connected : (z : Bool × W) → Spec (open_and_send c key message idem model guarded z)
      connected (false, w1) = unsent_at w1
      connected (true, w1) = created w1 (c.create_session key w1) refl
