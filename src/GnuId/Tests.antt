-- ===== src/GnuId/Tests.antt =====
-- Identifiers on concrete bytes.
use peercast_yt.Prelude.{ℕ, ◌≡◌, refl, some, none, arith, List, [], ◌∷◌, replicate}
use peercast_yt.Address.{Host, of_ipv4}
use peercast_yt.GnuId.{GnuId, clear_list, empty_list, encode, add}
use peercast_yt.GnuId.Encode.{encode_twice, encode_ipv4}
use peercast_yt.GnuId.Seen.{Added, add-Added}

abbrev sample : List ℕ
sample = 0xde ∷ 0xad ∷ 0 ∷ 1 ∷ replicate 12 7

abbrev sample_id : GnuId
sample_id = record { id = sample; store_time = 0 }

abbrev local_host : Host
local_host = record { ip = of_ipv4 0x7f000001; port = 7144 }

abbrev seen : List GnuId
seen =
    record { id = replicate 16 1; store_time = 30 }
    ∷ record { id = replicate 16 2; store_time = 20 }
    ∷ []

-- The entry seen longest ago makes room.
replaced :
    add 40 seen sample_id
    ≡ record { id = replicate 16 1; store_time = 30 } ∷ record { id = sample; store_time = 40 } ∷ []
unfolding add
replaced = refl

encode_twice_example :
    encode
      (some local_host)
      (some (b'n' ∷ b'g' ∷ []))
      (some (b'o' ∷ []))
      5
      (encode (some local_host) (some (b'n' ∷ b'g' ∷ [])) (some (b'o' ∷ [])) 5 sample_id)
    ≡ sample_id
encode_twice_example =
    encode_twice (some local_host) (some (b'n' ∷ b'g' ∷ [])) (some (b'o' ∷ [])) 5 sample_id

encode_ipv4_example :
    encode (some local_host) (some (b'n' ∷ [])) none 5 sample_id
    ≡ encode none (some (b'n' ∷ [])) none 5 sample_id
encode_ipv4_example = encode_ipv4 0x7f000001 7144 5 (some (b'n' ∷ [])) none sample_id

add-Added_example : Added 40 seen sample_id (add 40 seen sample_id)
add-Added_example = add-Added 40 seen sample_id (omega arith) (omega arith)

-- A cleared table is the one that the constructor makes.
cleared_table : clear_list seen ≡ empty_list 2
unfolding clear_list empty_list
cleared_table = refl
