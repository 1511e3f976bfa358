-- ===== src/Connections/Handshaking.antt =====
-- conn of internal/server/gateway.go: the retries of a handshake come to an end.
use cubepilot.Prelude.{
  ℕ, zero, suc, ◌+◌, ◌-◌, ◌*◌, ◌≤◌, ◌<◌, ◌≡◌, refl, ap, Bool, true, false, not, Option, none, some,
  Text, utf8, text_contains, ltb, ltb→lt, if◌then◌else◌, arith, inl, inr, if_elim, ◌⊎◌,
}
use cubepilot.Connections.{
  Dialer, pair_retry_delay, pair_budget, Handshake, paired, rejected, abandoned, handshake,
}

-- The clock does not go back in a call, a pause that ends by itself lasts pairRetryDelay, and a
-- handshake that succeeds leaves its client connected.
pub record IsTimed {W : Type 0} (d : Dialer W) : Type 0 where
  pub connect_later :
      (gw : ℕ) (w w' : W) (e : Option Text) → d.connect gw w ≡ (e, w') → d.now w ≤ d.now w'
  pub pause_later : (w w' : W) → d.pause w ≡ (true, w') → d.now w + pair_retry_delay ≤ d.now w'
  pub up : (gw : ℕ) (w w' : W) → d.connect gw w ≡ (none, w') → d.is_up gw w' ≡ true

module _ {W : Type 0} (d : Dialer W) (timed : IsTimed d) where
  -- How the handshake ends: connected, or with the context; with an error, only if that is another than
  -- NOT_PAIRED or the budget is over.
  pub data HandshakeSpec (start gw : ℕ) : Handshake × W → Type 0 where
    is_paired : (w : W) → d.is_up gw w ≡ true → HandshakeSpec start gw (paired, w)
    is_rejected :
        (err : Text) (w : W)
        → (text_contains err (utf8 "NOT_PAIRED") ≡ false) ⊎ (pair_budget < d.now w - start)
        → HandshakeSpec start gw (rejected err, w)
    is_abandoned : (w : W) → HandshakeSpec start gw (abandoned, w)

  abbrev Ends : ℕ → ℕ → Option (Handshake × W) → Type 0
  Ends start gw o = (z : Handshake × W) × (o ≡ some z) × HandshakeSpec start gw z

  -- One round, on the answers of its handshake and of its pause.
  abbrev round :
      ℕ → (W → Option (Handshake × W)) → Option Text × W → Bool × W → Option (Handshake × W)
  round start rest (e, w1) (on, w2) = elim e [
    | none ↦ some (paired, w1)
    | some err ↦
        if not (text_contains err (utf8 "NOT_PAIRED"))
        then some (rejected err, w1)
        else if ltb pair_budget (d.now w1 - start)
        then some (rejected err, w1)
        else elim on [ false ↦ some (abandoned, w2) | true ↦ rest w2 ]
  ]

  round-Ends :
      (start gw : ℕ) (rest : W → Option (Handshake × W)) (w : W) (z : Option Text × W)
      (p : Bool × W)
      → d.connect gw w ≡ z
      → d.pause z.1 ≡ p
      → (ltb pair_budget (d.now z.1 - start) ≡ false → p.0 ≡ true → Ends start gw (rest p.1))
      → Ends start gw (round start rest z p)
  round-Ends start gw rest w (none, w1) (on, w2) e q h =
      ((paired, w1), refl, is_paired w1 (timed.up gw w w1 e))
  round-Ends start gw rest w (some err, w1) (on, w2) e q h =
      if_elim (Ends start gw) (not (text_contains err (utf8 "NOT_PAIRED"))) _ _
        (λ f. ((rejected err, w1), refl, is_rejected err w1 (inl (ground (arith, f)))))
        (λ _.
          if_elim (Ends start gw) (ltb pair_budget (d.now w1 - start)) _ _
            (λ t. (
              (rejected err, w1),
              refl,
              is_rejected err w1 (inr (ltb→lt pair_budget (d.now w1 - start) t)),
            ))
            (λ f. paused on h f))
    where
      paused :
          (b : Bool)
          → (ltb pair_budget (d.now w1 - start) ≡ false → b ≡ true → Ends start gw (rest w2))
          → ltb pair_budget (d.now w1 - start) ≡ false
          → Ends start gw (elim b [ false ↦ some (abandoned, w2) | true ↦ rest w2 ])
      paused false k f = ((abandoned, w2), refl, is_abandoned w2)
      paused true k f = k f refl

  -- The budget, less what is spent, is over in the rounds that are left.
  pub handshake-Ends :
      (fuel start gw : ℕ) (w : W)
      → start ≤ d.now w
      → start + pair_budget < d.now w + fuel * pair_retry_delay
      → Ends start gw (handshake d (suc fuel) start gw w)
  unfolding handshake
  handshake-Ends zero start gw w s b =
      round-Ends start gw (λ w2. none) w (d.connect gw w) (d.pause (d.connect gw w).1) refl refl
        (λ f _. absurd (
          over (d.connect gw w).1 f
            (timed.connect_later gw w (d.connect gw w).1 (d.connect gw w).0 refl)))
    where
      over : (w1 : W) → ltb pair_budget (d.now w1 - start) ≡ false → ¬ (d.now w ≤ d.now w1)
      over w1 f l = ground (arith, f, l, b, s)
  handshake-Ends (suc fuel) start gw w s b =
      round-Ends start gw (handshake d (suc fuel) start gw) w (d.connect gw w) (d.pause w1) refl
        refl
        (λ f on.
          let l = timed.pause_later w1 (d.pause w1).1 (ap (λ z. (z, (d.pause w1).1)) on) in
          handshake-Ends fuel start gw (d.pause w1).1 (omega (arith, l, c, s))
            (omega (arith, l, c, b)))
    where
      w1 : W
      w1 = (d.connect gw w).1

      c : d.now w ≤ d.now w1
      c = timed.connect_later gw w w1 (d.connect gw w).0 refl
