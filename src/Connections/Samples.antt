-- ===== src/Connections/Samples.antt =====
-- Two calls for one user, whose device is paired at the third handshake; the theorem at the second.
use cubepilot.Prelude.{
  ℕ, suc, ◌*◌, ◌≡◌, refl, true, [], ◌∷◌, Option, none, some, Text, utf8, leb, lookup, insert,
  text_contains, has_prefix, text_eq, if◌then◌else◌,
}
use cubepilot.Connections.{
  GatewayConns, Dialer, usable, conn, dial, served, held, handshake, live_conn, gateway_connected,
  register, mark_connected, conclude,
}

-- The world is the number of pauses.
abbrev answer : ℕ → Option Text
answer w = if leb 2 w then none else some (utf8 "NOT_PAIRED")

abbrev dialer : Dialer ℕ
dialer = record {
  is_up = λ gw w. leb 2 w;
  connect = λ gw w. (answer w, w);
  now = λ w. w * 1500000000;
  pause = λ w. (true, suc w);
  acquire = λ w. (true, 1, w);
}

abbrev no_conns : GatewayConns
no_conns = record { conns = []; next = 0 }

third_time :
    conn dialer 22 (utf8 "ann") no_conns 0
    ≡ some (
      usable 0,
      record { conns = (utf8 "ann", record { gw = 0; connected = true }) ∷ []; next = 1 },
      2,
    )
unfolding conn dial served held handshake live_conn register mark_connected conclude
    gateway_connected lookup insert text_contains has_prefix text_eq
third_time = refl
