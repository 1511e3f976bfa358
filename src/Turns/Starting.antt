-- ===== src/Turns/Starting.antt =====
-- RunLiveTurn of internal/server/live.go up to the run's end, and the adapter of
-- internal/server/gateway.go that asks PreTurn first. The session's settings are those of
-- internal/openclaw/ws/frames.go.
use cubepilot.Prelude.{
  Bool, true, false, not, ◌||◌, List, [], Option, none, some, Text, utf8, is_empty, text_eq, Table,
  if◌then◌else◌,
}
use cubepilot.Allowlist.{AllowlistRule}
use cubepilot.Approvals.Gating
use cubepilot.Approvals.Gating.{pre_turn}

-- SessionState
pub record SessionState : Type 0 where
  pub model : Text
  pub permission_mode : Text

-- OptionalString
pub record OptionalString : Type 0 where
  pub is_set : Bool
  pub value : Text

-- SessionSettingsPatch
pub record SessionSettingsPatch : Type 0 where
  pub model : OptionalString
  pub permission_mode : OptionalString

-- RunLiveTurn, desiredPermission
unfoldable pub desired_permission : Bool → Text
desired_permission guarded = if guarded then utf8 "guarded" else []

-- RunLiveTurn, its patch.
unfoldable pub settings_patch : SessionState → Text → Bool → SessionSettingsPatch
unfolding desired_permission
settings_patch state model guarded = record {
  model = record { is_set = not (text_eq state.model model); value = model };
  permission_mode = record {
    is_set = not (text_eq state.permission_mode (desired_permission guarded));
    value = desired_permission guarded;
  };
}

-- What a session's settings are behind an accepted patch: an empty value clears.
unfoldable pub patched : SessionSettingsPatch → SessionState → SessionState
patched p s = record {
  model = if p.model.is_set then p.model.value else s.model;
  permission_mode = if p.permission_mode.is_set then p.permission_mode.value else s.permission_mode;
}

-- The calls of the user's connection, with the state of the world passed on: whether it can be had,
-- CreateSession, PatchSessionSettings, SubscribeSessionMessages and SendSessionMessage, none or false
-- for an error.
pub record Channel (W : Type 0) : Type 0 where
  pub conn : W → Bool × W
  pub create_session : Text → W → Option SessionState × W
  pub patch_session_settings : Text → SessionSettingsPatch → W → Bool × W
  pub subscribe : Text → W → Bool × W
  pub send : Text → Text → Text → W → Option Text × W

-- How far a start comes: no message is sent; it is sent and refused; the run's id.
pub data Start : Type 0 where
  unsent refused : Start
  started : Text → Start

module _ {W : Type 0} where
  -- The run of a turn: the id that the gateway gives, or the idempotency key.
  unfoldable pub acknowledged : Text → Option Text × W → Start × W
  acknowledged idem (none, w) = (refused, w)
  acknowledged idem (some id, w) = (started (if is_empty id then idem else id), w)

module _ {W : Type 0} (c : Channel W) where
  -- RunLiveTurn, behind the subscription.
  unfoldable pub send_message : Text → Text → Text → Bool × W → Start × W
  unfolding acknowledged
  send_message key message idem (false, w) = (unsent, w)
  send_message key message idem (true, w) = acknowledged idem (c.send key message idem w)

  -- RunLiveTurn, behind the patch.
  unfoldable pub subscribe_and_send : Text → Text → Text → Bool × W → Start × W
  unfolding send_message
  subscribe_and_send key message idem (false, w) = (unsent, w)
  subscribe_and_send key message idem (true, w) = send_message key message idem (c.subscribe key w)

  -- RunLiveTurn, the patch if it sets anything.
  unfoldable pub apply_settings : Text → SessionSettingsPatch → W → Bool × W
  apply_settings key p w =
      if p.model.is_set || p.permission_mode.is_set
      then c.patch_session_settings key p w
      else (true, w)

  -- RunLiveTurn, behind CreateSession.
  unfoldable pub settle_and_send :
      Text → Text → Text → Text → Bool → Option SessionState × W → Start × W
  unfolding settings_patch apply_settings subscribe_and_send
  settle_and_send key message idem model guarded (none, w) = (unsent, w)
  settle_and_send key message idem model guarded (some state, w) =
      subscribe_and_send key message idem
        (apply_settings key (settings_patch state model guarded) w)

  -- RunLiveTurn, behind conn.
  unfoldable pub open_and_send : Text → Text → Text → Text → Bool → Bool × W → Start × W
  unfolding settle_and_send
  open_and_send key message idem model guarded (false, w) = (unsent, w)
  open_and_send key message idem model guarded (true, w) =
      settle_and_send key message idem model guarded (c.create_session key w)

  -- gatewayConns.RunLiveTurn; `idem` is the key that it draws.
  unfoldable pub run_live_turn : Text → Text → Text → Text → Bool → W → Start × W
  unfolding open_and_send
  run_live_turn key message idem model guarded w =
      open_and_send key message idem model guarded (c.conn w)

  -- openClawLiveRunner.RunLiveTurn, behind PreTurn.
  unfoldable pub run_behind :
      Text → Text → Text → Text → Option Bool × (Table Text × W) → Start × (Table Text × W)
  unfolding run_live_turn
  run_behind key message idem model (none, (revs, w)) = (unsent, (revs, w))
  run_behind key message idem model (some guarded, (revs, w)) =
      let ran = run_live_turn key message idem model guarded w in (ran.0, (revs, ran.1))

  -- openClawLiveRunner.RunLiveTurn, with the gateway of the policy, what the configuration resolves to,
  -- whether there is a connection for the policy, and the revisions that are applied.
  unfoldable pub run_turn :
      Gating.Gateway W
      → Option (Text × (List AllowlistRule × Text))
      → Bool
      → Text
      → Table Text
      → Text
      → Text
      → Text
      → Text
      → W
      → Start × (Table Text × W)
  unfolding run_behind
  run_turn g resolved connected user revs key message idem model w =
      run_behind key message idem model (pre_turn g resolved connected user revs w)
