-- ===== src/Websocket.antt =====
-- include/deribit/websocket_beast.h: the calls of the stream that do not throw, and the flag that
-- says that it is shutting down.
use hft_deribit.Prelude.Decimal.{to_string}
use hft_deribit.Prelude.{
  ℕ, ◌++◌, not, codes, Bool, true, false, [], Option, none, some, Text, if◌then◌else◌,
}

-- Boost.Beast's stream with the resolver, the socket and the TLS layer below it: each call gives
-- the stream afterwards and whether it succeeded; `none` and `false` stand for an exception.
-- `connect_tcp` gives the port of the endpoint, and `set_sni` is `SSL_set_tlsext_host_name`.
pub record Beast (W : Type 0) : Type 0 where
  pub resolve : W → Text → Text → W × Bool
  pub connect_tcp : W → W × Option ℕ
  pub set_sni : W → Text → W × Bool
  pub handshake_tls : W → W × Bool
  pub handshake_ws : W → Text → Text → W × Bool
  pub read_message : W → W × Option Text
  pub write_message : W → Text → W × Bool
  pub close_normal : W → W × Bool

abbrev pub deribit_host : Text
deribit_host = codes "test.deribit.com"

abbrev pub deribit_port : Text
deribit_port = codes "443"

abbrev pub deribit_path : Text
deribit_path = codes "/ws/api/v2"

pub record WebSocketBeast (W : Type 0) : Type 0 where
  pub stream : W
  pub shutting_down : Bool

module _ {W : Type 0} (beast : Beast W) where
  -- The calls of `connect` in order, up to the first that throws; and whether none does.
  unfoldable pub connect : W → W × Bool
  connect w =
      let (w1, resolved) = beast.resolve w deribit_host deribit_port in
      if not resolved
      then (w1, false)
      else (let (w2, port) = beast.connect_tcp w1 in
          elim port [
            | none ↦ (w2, false)
            | some p ↦
                let (w3, named) = beast.set_sni w2 deribit_host in
                let (w4, secured) = beast.handshake_tls w3 in
                if not named
                then (w3, false)
                else if not secured
                then (w4, false)
                else beast.handshake_ws w4 (deribit_host ++ codes ":" ++ to_string p) deribit_path
          ])

  -- An exception is logged, and the caller does not learn of it.
  unfoldable pub send : WebSocketBeast W → Text → WebSocketBeast W
  send ws msg = record ws { stream = (beast.write_message ws.stream msg).0 }

  -- The `try` block of `read`, and its handler: the test of the flag there only chooses the log line.
  unfoldable pub read_stream : WebSocketBeast W → WebSocketBeast W × Text
  read_stream ws =
      let (stream, received) = beast.read_message ws.stream in
      elim received [
        | none ↦ (record ws { stream = stream }, [])
        | some msg ↦ (record ws { stream = stream }, msg)
      ]

  unfoldable pub read : WebSocketBeast W → WebSocketBeast W × Text
  unfolding read_stream
  read ws = if ws.shutting_down then (ws, []) else read_stream ws

  unfoldable pub close : WebSocketBeast W → WebSocketBeast W
  close ws = record { stream = (beast.close_normal ws.stream).0; shutting_down = true }

unfoldable pub mark_shutting_down : {W : Type 0} → WebSocketBeast W → WebSocketBeast W
mark_shutting_down ws = record ws { shutting_down = true }
