-- ===== src/Dechunker/Tests.antt =====
-- The dechunker on a concrete body.
use peercast_yt.Prelude.{ℕ, ◌≡◌, refl, false, arith, List, [], ◌∷◌, ◌++◌}
use peercast_yt.Io.{ok}
use peercast_yt.Dechunker.{Dechunker, dechunk}
use peercast_yt.Dechunker.Chunker.{write_all, concat, dechunk-write_all}
use peercast_yt.Dechunker.Body.{Chunk, encode_all, content, Reads, dechunk-Reads}

abbrev chunks : List Chunk
chunks =
    record { digits = 2 ∷ []; body = b'a' ∷ b'b' ∷ [] }
    ∷ record { digits = 0 ∷ 1 ∷ []; body = b'c' ∷ [] }
    ∷ []

abbrev start : Dechunker
start = record { eof = false; buffer = []; stream = encode_all chunks (b'z' ∷ []) }

three : (dechunk 3 start).1 ≡ ok (b'a' ∷ b'b' ∷ b'c' ∷ [])
unfolding dechunk
three = refl

dechunk-Reads_example : Reads 3 (content start chunks) (b'z' ∷ []) (dechunk 3 start)
dechunk-Reads_example =
    dechunk-Reads 3 chunks (b'z' ∷ []) start
      (
        record { digit = omega arith; size = refl; filled = omega arith; fits = omega arith },
        (record { digit = omega arith; size = refl; filled = omega arith; fits = omega arith }, tt),
      )
      (refl, refl)

abbrev writes : List (List ℕ)
writes = (b'a' ∷ b'b' ∷ []) ∷ [] ∷ (b'c' ∷ []) ∷ []

dechunk-write_all_example :
    Reads 3
      (concat writes)
      (b'z' ∷ [])
      (dechunk 3 (record { eof = false; buffer = []; stream = write_all writes ++ b'z' ∷ [] }))
dechunk-write_all_example =
    dechunk-write_all 3 writes (b'z' ∷ []) (omega arith, (omega arith, (omega arith, tt)))
