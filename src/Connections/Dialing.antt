-- ===== src/Connections/Dialing.antt =====
-- conn of internal/server/gateway.go: that its retries end, and what they end with.
use cubepilot.Prelude.{ℕ, ◌≡◌, Bool, true, false, none, some, Text, lookup, ◌⊎◌}
use cubepilot.Connections.{GatewayConns, Dialer, Conn, usable, unusable, live_conn, served}

-- Whether a handshake of the user has succeeded, as the entry tells.
abbrev pub was_connected : Text → GatewayConns → Bool
was_connected user m = elim (lookup user m.conns) [ none ↦ false | some c ↦ c.connected ]

-- A success of an earlier handshake is not forgotten.
abbrev pub Kept : Text → GatewayConns → GatewayConns → Type 0
Kept user m m' = (was_connected user m ≡ false) ⊎ (was_connected user m' ≡ true)

-- What a call that holds the user's lock comes to: the client that is registered and connected, or a new
-- one whose success is recorded, or none.
pub data DialSpec {W : Type 0} (d : Dialer W) (user : Text) (m : GatewayConns) (w : W)
    : Conn × GatewayConns × W → Type 0 where
  reused : (gw : ℕ) → live_conn d user m w ≡ some gw → DialSpec d user m w (usable gw, m, w)
  paired :
      (m' : GatewayConns) (w' : W)
      → lookup user m'.conns ≡ some (record { gw = m.next; connected = true })
      → d.is_up m.next w' ≡ true
      → DialSpec d user m w (usable m.next, m', w')
  failed : (m' : GatewayConns) (w' : W) → Kept user m m' → DialSpec d user m w (unusable, m', w')

-- What conn comes to: at once the client that is registered and connected; else what a call comes to
-- that holds the lock after the calls before it; or none, if the wait for the lock is given up.
pub data ConnSpec {W : Type 0} (d : Dialer W) (user : Text) (m : GatewayConns) (w : W)
    : Conn × GatewayConns × W → Type 0 where
  at_once : (gw : ℕ) → live_conn d user m w ≡ some gw → ConnSpec d user m w (usable gw, m, w)
  in_turn :
      (l : GatewayConns) (v : W) (z : Conn × GatewayConns × W)
      → (d.acquire w).0 ≡ true
      → served d 22 (d.acquire w).1 user m (d.acquire w).2 ≡ some (l, v)
      → Kept user m l
      → DialSpec d user l v z
      → ConnSpec d user m w z
  given_up :
      (l : GatewayConns) (v : W)
      → (d.acquire w).0 ≡ false
      → served d 22 (d.acquire w).1 user m (d.acquire w).2 ≡ some (l, v)
      → Kept user m l
      → ConnSpec d user m w (unusable, l, v)
