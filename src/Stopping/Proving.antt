-- ===== src/Stopping/Proving.antt =====
-- handleAbort of internal/server/abort.go: what it has shown before it closes a session's cards.
use cubepilot.Prelude.{
  ℕ, ◌≡◌, Bool, true, false, List, [], ◌∷◌, ◌++◌, Option, some, Text, is_empty, ◌⊎◌,
}
use cubepilot.Stopping.{
  Gateway, Act, aborts, Target, nothing, run, target, settle_pending_for_session, capture,
}

-- What the documentation of the gateway says of its answers: a run that it reports aborted is over when
-- it answers, and where it reports that none is in flight, none is. `running` tells which runs of a
-- session are in flight.
pub record IsHonest {W : Type 0} (g : Gateway W) (running : Text → Text → W → Type 0) : Type 0 where
  pub aborted :
      (key id : Text) (w w' : W) → g.abort_chat key id w ≡ (some true, w') → ¬ running key id w'
  pub none_in_flight :
      (key id r : Text) (w w' : W)
      → g.in_flight_run key w ≡ (some (id, false), w')
      → ¬ running key r w'
  pub not_busy :
      (key r : Text) (w w' : W) → g.session_busy key w ≡ (some false, w') → ¬ running key r w'

module _ {W : Type 0} (g : Gateway W) (running : Text → Text → W → Type 0) where
  -- No run of the session is in flight.
  abbrev pub IsQuiet : Text → W → Type 0
  IsQuiet key w = (r : Text) → ¬ running key r w

  -- The run that was to be stopped is over, or every run of the session is.
  abbrev pub IsOver : Text → Target → W → Type 0
  IsOver key t w = IsQuiet key w ⊎ ((id : Text) × (t ≡ run id) × ¬ running key id w)

  -- At most one abort is sent, and it names the run that is to be stopped.
  abbrev pub IsScoped : Text → Target → List Act → Type 0
  IsScoped key t acts =
      (acts ≡ [])
      ⊎ ((id : Text) × (t ≡ run id) × (is_empty id ≡ false) × (acts ≡ aborts key id ∷ []))

  -- What a Stop of a session comes to. Either it is refused, and no card is closed; or the cards are
  -- closed from a state in which what was to be stopped is over, and where it succeeds, no run is in
  -- flight at its end and no stream of the session is open.
  pub data StopSpec (has_service : Bool) (user key : Text) (w : W) : ℕ × List Act × W → Type 0 where
    refused :
        (acts : List Act) (end : W)
        → IsScoped key (target g user key (capture g has_service key w).1).0 acts
        → StopSpec has_service user key w (502, acts, end)
    settled :
        (status : ℕ) (acts : List Act) (before end : W)
        → IsScoped key (target g user key (capture g has_service key w).1).0 acts
        → IsOver key (target g user key (capture g has_service key w).1).0 before
        → (status ≡ 200 → IsQuiet key end × (g.hub_active key end ≡ false))
        → StopSpec has_service user key w (
          status,
          acts ++ (settle_pending_for_session g key (capture g has_service key w).0 before).0,
          end,
        )

module _ {W : Type 0} (g : Gateway W) (running : Text → Text → W → Type 0)
    (honest : IsHonest g running) where
  -- The target, as it is found: a run with an id, or nothing, and then no run is in flight.
  abbrev IsFound : Text → Target × W → Type 0
  IsFound key z =
      ((z.0 ≡ nothing) → IsQuiet g running key z.1)
      × ((id : Text) → z.0 ≡ run id → is_empty id ≡ false)

  -- The abort: what it sends is scoped, and where it succeeds, what was to be stopped is over.
  abbrev IsStopped : Text → Target → Bool × List Act × W → Type 0
  IsStopped key t z = IsScoped g running key t z.1 × (z.0 ≡ true → IsOver g running key t z.2)

  -- The wait ends with success only where both signals are had at one moment.
  abbrev IsDone : Text → Option ℕ × W → Type 0
  IsDone key z = z.0 ≡ some 200 → IsQuiet g running key z.1 × (g.hub_active key z.1 ≡ false)
