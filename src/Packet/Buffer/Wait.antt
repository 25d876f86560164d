-- ===== src/Packet/Buffer/Wait.antt =====
-- The wait of `readPacket`.
use peercast_yt.Prelude.{ℕ, ◌<◌, ◌≢◌, List, [], ◌∷◌, ◌++◌, arith}
use peercast_yt.Prelude.Words.{sub32}
use peercast_yt.Packet.{Packet}
use peercast_yt.Packet.Buffer.{Buffer, Tick, waiting, read_loop, read_packet}

read_loop_ends :
    (start : ℕ) (before : List Tick) (t : Tick) (after : List Tick) (b : Buffer) (out : Packet)
    → 30 < sub32 t.now start
    → (read_loop start (before ++ t ∷ after) b out).0 ≢ waiting
unfolding read_loop
read_loop_ends start [] t after b out h = ground arith
read_loop_ends start (s ∷ before) t after b out h =
    ground (arith, read_loop_ends start before t after (s.others b) out h)

-- `readPacket` does not wait for ever: whatever the other threads do to the buffer, once the clock
-- that a turn of the wait reads is more than 30 seconds past the start, the call has ended, with a
-- packet or an exception.
pub read_packet_ends :
    (start : ℕ) (before : List Tick) (t : Tick) (after : List Tick) (b : Buffer) (out : Packet)
    → 30 < sub32 t.now start
    → (read_packet start (before ++ t ∷ after) b out).0 ≢ waiting
unfolding read_packet
read_packet_ends start before t after b out h =
    ground (arith, read_loop_ends start before t after b out h)
