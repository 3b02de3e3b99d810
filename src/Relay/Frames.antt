-- ===== src/Relay/Frames.antt =====
-- The frames of internal/relay: handler.go's `wrapFrame`, of which relay_udp_bridge.go and client.go
-- have copies, and the header reading that handler.go, broker.go and client.go repeat.
use safeswitch_router.Common.{
  ℕ, suc, ◌+◌, ◌-◌, ◌%◌, ◌<◌, ◌≡◌, Option, none, some, ◌∷◌, ◌++◌, arith, Bytes, length, drop,
  length-append, drop_append, take_append, ltb, if◌then◌else◌,
}
use safeswitch_router.Dns.Packet.{slice, word, word_bytes}

abbrev pub frame_type_data : ℕ
frame_type_data = 1

abbrev pub frame_type_ping : ℕ
frame_type_ping = 2

abbrev pub frame_type_pong : ℕ
frame_type_pong = 3

-- The length is written as a `uint16`.
unfoldable pub wrap_frame : Bytes → Bytes → Bytes
wrap_frame device_id payload =
    frame_type_data ∷ (word_bytes (length device_id % 65536) ++ (device_id ++ payload))

-- The device and the payload behind the header; `none` where a reader drops the packet.
unfoldable pub read_frame : Bytes → Option (Bytes × Bytes)
read_frame pkt =
    let end = 3 + word pkt 1 in
    if ltb (length pkt) 3
    then none
    else if ltb (length pkt) end
    then none
    else some (slice pkt 3 end, drop end pkt)

-- A frame of a device whose tag is shorter than 65536 bytes is read as that tag and the payload.
pub read_frame-wrap_frame :
    (device_id payload : Bytes)
    → length device_id < 65536
    → read_frame (wrap_frame device_id payload) ≡ some (device_id, payload)
unfolding read_frame wrap_frame word word_bytes
read_frame-wrap_frame device_id payload h =
    let n = length device_id in
    let end : 3 + word (wrap_frame device_id payload) 1 ≡ suc (suc (suc n)) = omega arith in
    let size : suc (suc (suc n)) - 3 ≡ n = omega arith in
    rw end (
      rw size (
        ground (
          arith,
          length-append device_id payload,
          take_append device_id payload,
          drop_append device_id payload,
        )))
