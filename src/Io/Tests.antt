-- ===== src/Io/Tests.antt =====
-- The stream operations on concrete bytes.
use peercast_yt.Prelude.{◌≡◌, refl, [], ◌∷◌}
use peercast_yt.Io.{Result, ok, err, read_int, write_int, write_to, skip, read_line, end_of_stream}

lines : read_line 10 (b'a' ∷ 13 ∷ 10 ∷ b'b' ∷ []) ≡ (ok (b'a' ∷ []), b'b' ∷ [])
unfolding peercast_yt.Io.read_line_from
lines = refl
