-- ===== src/Relay/Client.antt =====
-- internal/relay/client.go: the pauses between the attempts of a home node to connect, and what it
-- does with a frame of the broker.
use safeswitch_router.Common.{
  ℕ, zero, suc, ◌*◌, none, some, List, [], ◌∷◌, Bytes, ltb, ◌==◌, if◌then◌else◌,
}
use safeswitch_router.Relay.Frames.{frame_type_data, frame_type_ping, frame_type_pong, read_frame}

-- In seconds.
abbrev pub client_reconnect_base : ℕ
client_reconnect_base = 5

abbrev pub client_reconnect_max : ℕ
client_reconnect_max = 30

unfoldable pub next_delay : ℕ → ℕ
next_delay delay = if ltb client_reconnect_max (delay * 2) then client_reconnect_max else delay * 2

-- The pauses of `connectLoop`, one behind each session, however long the session was.
unfoldable pub delays : ℕ → ℕ → List ℕ
delays zero delay = []
delays (suc n) delay = delay ∷ delays n (next_delay delay)

-- A frame of the broker is answered, or its payload is written to WireGuard.
pub data Reaction : Type 0 where
  answer : Bytes → Reaction
  inject : Bytes → Reaction
  ignore : Reaction

unfoldable pub handle_frame : Bytes → Reaction
handle_frame [] = ignore
handle_frame (kind ∷ rest) =
    if kind == frame_type_ping
    then answer (frame_type_pong ∷ 0 ∷ 0 ∷ [])
    else if kind == frame_type_data
    then (elim (read_frame (kind ∷ rest)) [ none ↦ ignore | some (tag, payload) ↦ inject payload ])
    else ignore
