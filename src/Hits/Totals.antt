-- ===== src/Hits/Totals.antt =====
-- The totals of `ChanHitList` (core/common/chanhit.cpp): how many, how near, how new.
use peercast_yt.Prelude.{ℕ, Bool, ◌&&◌, List, [], ◌∷◌, ltb, if◌then◌else◌}
use peercast_yt.Prelude.Words.{add32}
use peercast_yt.Hits.{Hit, Node, has_ip, is_live}

-- The totals: a sum over the nodes that a test holds of. Sums of unsigned words wrap.
unfoldable pub total : (Hit → Bool) → (Hit → ℕ) → List Node → ℕ → ℕ
total test f [] cnt = cnt
total test f (n ∷ ns) cnt = total test f ns (if test n.hit then add32 cnt (f n.hit) else cnt)

abbrev pub one : Hit → ℕ
one c = 1

unfoldable pub get_total_listeners : List Node → ℕ
unfolding total
get_total_listeners l = total has_ip (λ c. c.num_listeners) l 0

unfoldable pub get_total_relays : List Node → ℕ
unfolding total
get_total_relays l = total has_ip (λ c. c.num_relays) l 0

unfoldable pub get_total_firewalled : List Node → ℕ
unfolding total
get_total_firewalled l = total (λ c. has_ip c && c.firewalled) one l 0

unfoldable pub num_hits : List Node → ℕ
unfolding total
num_hits l = total is_live one l 0

unfoldable pub num_listeners : List Node → ℕ
unfolding total
num_listeners l = total is_live (λ c. c.num_listeners) l 0

unfoldable pub num_relays : List Node → ℕ
unfolding total
num_relays l = total is_live (λ c. c.num_relays) l 0

unfoldable pub num_trackers : List Node → ℕ
unfolding total
num_trackers l = total (λ c. is_live c && c.tracker) one l 0

unfoldable pub num_firewalled : List Node → ℕ
unfolding total
num_firewalled l = total is_live (λ c. if c.firewalled then 1 else 0) l 0

-- `closestHit()`, with the least number of hops so far.
unfoldable pub closest_from : List Node → ℕ → ℕ
closest_from [] hop = hop
closest_from (n ∷ ns) hop =
    closest_from ns (if is_live n.hit && ltb (n.hit).num_hops hop then (n.hit).num_hops else hop)

unfoldable pub closest_hit : List Node → ℕ
unfolding closest_from
closest_hit l = closest_from l 10000

-- `furthestHit()` and `newestHit()`, with the greatest value so far.
unfoldable pub greatest_from : (Hit → ℕ) → List Node → ℕ → ℕ
greatest_from f [] v = v
greatest_from f (n ∷ ns) v =
    greatest_from f ns (if is_live n.hit && ltb v (f n.hit) then f n.hit else v)

unfoldable pub furthest_hit : List Node → ℕ
unfolding greatest_from
furthest_hit l = greatest_from (λ c. c.num_hops) l 0

unfoldable pub newest_hit : List Node → ℕ
unfolding greatest_from
newest_hit l = greatest_from (λ c. c.time) l 0
