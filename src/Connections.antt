-- ===== src/Connections.antt =====
-- internal/server/gateway.go: the user's connection to the gateway, with the retries of its first
-- handshake.
pub mod Dialing
pub mod Handshaking
mod Samples
use cubepilot.Prelude.{
  ℕ, zero, suc, ◌+◌, ◌-◌, ◌*◌, Bool, true, false, not, ◌&&◌, ◌||◌, Option, none, some, Text, utf8,
  text_contains, ltb, Table, lookup, insert, if◌then◌else◌,
}

-- userGatewayConn; a client is a number, that of its newClient.
pub record UserGatewayConn : Type 0 where
  pub gw : ℕ
  pub connected : Bool

-- gatewayConns, its connections and the number of the next client.
pub record GatewayConns : Type 0 where
  pub conns : Table UserGatewayConn
  pub next : ℕ

-- The clients and the clock, with the state of the world passed on: whether a client is connected, one
-- handshake, none for success, the instant in nanoseconds, and the pause of pairRetryDelay, false if the
-- context ends in it. `acquire` is the wait for the user's lock: false if the context ends in it, and how
-- many other calls for the user have held the lock, and ended, in that wait.
pub record Dialer (W : Type 0) : Type 0 where
  pub is_up : ℕ → W → Bool
  pub connect : ℕ → W → Option Text × W
  pub now : W → ℕ
  pub pause : W → Bool × W
  pub acquire : W → Bool × ℕ × W

-- pairRetryDelay and pairBudget
abbrev pub pair_retry_delay : ℕ
pair_retry_delay = 1500000000

abbrev pub pair_budget : ℕ
pair_budget = 30000000000

-- How a handshake ends: with a connection, with its last error, or with the context.
pub data Handshake : Type 0 where
  paired : Handshake
  rejected : Text → Handshake
  abandoned : Handshake

-- conn's result: a client that is connected, or none.
pub data Conn : Type 0 where
  usable : ℕ → Conn
  unusable : Conn

module _ {W : Type 0} (d : Dialer W) where
  -- liveConn
  unfoldable pub live_conn : Text → GatewayConns → W → Option ℕ
  live_conn user m w = elim (lookup user m.conns) [
    | none ↦ none
    | some c ↦ if d.is_up c.gw w then some c.gw else none
  ]

  -- hasConnectedLocked and gatewayConnected
  unfoldable pub gateway_connected : Text → GatewayConns → W → Bool
  gateway_connected user m w = elim (lookup user m.conns) [
    | none ↦ false
    | some c ↦ c.connected || d.is_up c.gw w
  ]

  -- conn, its loop: none where the fuel runs out.
  unfoldable pub handshake : ℕ → ℕ → ℕ → W → Option (Handshake × W)
  handshake zero start gw w = none
  handshake (suc fuel) start gw w =
      let (e, w1) = d.connect gw w in
      let (on, w2) = d.pause w1 in
      elim e [
        | none ↦ some (paired, w1)
        | some err ↦
            if not (text_contains err (utf8 "NOT_PAIRED"))
            then some (rejected err, w1)
            else if ltb pair_budget (d.now w1 - start)
            then some (rejected err, w1)
            else elim on [ false ↦ some (abandoned, w2) | true ↦ handshake fuel start gw w2 ]
      ]

  -- markConnected
  unfoldable pub mark_connected : Text → GatewayConns → GatewayConns
  mark_connected user m = elim (lookup user m.conns) [
    | none ↦ m
    | some c ↦ record m { conns = insert user (record c { connected = true }) m.conns }
  ]

  -- conn, the registration of a new client.
  unfoldable pub register : Text → GatewayConns → W → GatewayConns
  unfolding gateway_connected
  register user m w = record {
    conns = insert user (record { gw = m.next; connected = gateway_connected user m w }) m.conns;
    next = suc m.next;
  }

  -- conn, behind the handshake of the client that it has registered.
  unfoldable pub conclude : Text → ℕ → GatewayConns → Handshake × W → Conn × GatewayConns × W
  unfolding mark_connected
  conclude user gw m (paired, w) = (usable gw, mark_connected user m, w)
  conclude user gw m (rejected err, w) = (unusable, m, w)
  conclude user gw m (abandoned, w) = (unusable, m, w)

  -- conn, with the user's lock.
  unfoldable pub dial : ℕ → Text → GatewayConns → W → Option (Conn × GatewayConns × W)
  unfolding live_conn register handshake conclude
  dial fuel user m w = elim (live_conn user m w) [
    | some gw ↦ some (usable gw, m, w)
    | none ↦ elim (handshake fuel (d.now w) m.next w) [
      | none ↦ none
      | some end ↦ some (conclude user m.next (register user m w) end)
    ]
  ]

  -- The calls that hold the user's lock one after another, each from the check under the lock on.
  unfoldable pub served : ℕ → ℕ → Text → GatewayConns → W → Option (GatewayConns × W)
  unfolding dial
  served fuel zero user m w = some (m, w)
  served fuel (suc n) user m w = elim (dial fuel user m w) [
    | none ↦ none
    | some (c, m', w') ↦ served fuel n user m' w'
  ]

  -- conn, behind the wait for the user's lock.
  unfoldable pub held : ℕ → Text → Bool → GatewayConns × W → Option (Conn × GatewayConns × W)
  unfolding dial
  held fuel user true (m, w) = dial fuel user m w
  held fuel user false (m, w) = some (unusable, m, w)

  -- conn
  unfoldable pub conn : ℕ → Text → GatewayConns → W → Option (Conn × GatewayConns × W)
  unfolding live_conn served held
  conn fuel user m w = elim (live_conn user m w) [
    | some gw ↦ some (usable gw, m, w)
    | none ↦
        let (got, n, w1) = d.acquire w in
        elim (served fuel n user m w1) [ none ↦ none | some z ↦ held fuel user got z ]
  ]
