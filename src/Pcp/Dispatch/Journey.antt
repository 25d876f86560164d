-- ===== src/Pcp/Dispatch/Journey.antt =====
-- How far a message gets from peer to peer.
use peercast_yt.Prelude.{
  ℕ, zero, suc, ◌+◌, ◌-◌, ◌%◌, ◌≤◌, ◌<◌, ◌≡◌, ◌≢◌, ◌⊎◌, inl, inr, refl, sym, ap, ◌∙◌, true, Option,
  none, some, List, [], ◌∷◌, ◌++◌, arith, All, length, map, Bool-cases, subst,
}
use peercast_yt.GnuId.{GnuId}
use peercast_yt.Io.{Result, ok}
use peercast_yt.Hits.{Hit}
use peercast_yt.Pcp.Broadcast.{BroadcastState, Outcome, is_positive}
use peercast_yt.Pcp.Broadcast.Fields.{
  Field, ttl, hops, group, version, version_vp, ex_number, from, dest, chan, ex_prefix, other,
  bytes, forward, IsField, size,
}
use peercast_yt.Pcp.Broadcast.Sent.{ttl_field, last_ttl, ttl_left, Decided}
use peercast_yt.Pcp.Dispatch.{World, read_broadcast}
use peercast_yt.Pcp.Dispatch.Settings.{IsSetting, set_by}
use peercast_yt.Pcp.Dispatch.Carried.{carrying, CanCarry, read_broadcast-carrying}

-- A hop is a call of `readAtom`, by any peer in any state, on the bytes of a message, that sends it on. The
-- fuel of the calls is enough for the message of a host.
pub record Hop (bs : List ℕ) : Type 0 where
  pub session : GnuId
  pub now : ℕ
  pub fuel : ℕ
  pub enough : 20 ≤ fuel
  pub bcs : BroadcastState
  pub routes : List GnuId
  pub world : World
  pub after : List ℕ
  pub result : Outcome World
  pub reads : read_broadcast session now fuel bcs routes world (bs ++ after) ≡ (ok result, after)
  pub sends : result.sent ≢ []

-- The next peer has the bytes that were written.
pub data Journey : List ℕ → ℕ → Type 0 where
  stop : {bs : List ℕ} → Journey bs zero
  hop : {bs : List ℕ} {n : ℕ} → (h : Hop bs) → Journey ((h.result).loop).out n → Journey bs (suc n)

abbrev ByteOrNone : Option ℕ → Type 0
ByteOrNone none = Unit
ByteOrNone (some v) = v < 256

ttl_field-ByteOrNone :
    (fuel : ℕ) (f : Field) (o : Option ℕ)
    → IsField fuel f
    → ByteOrNone o
    → ByteOrNone (ttl_field f o)
ttl_field-ByteOrNone fuel (ttl v) o h k = h
ttl_field-ByteOrNone fuel (hops v) o h k = k
ttl_field-ByteOrNone fuel (group v) o h k = k
ttl_field-ByteOrNone fuel (version v) o h k = k
ttl_field-ByteOrNone fuel (version_vp v) o h k = k
ttl_field-ByteOrNone fuel (ex_number v) o h k = k
ttl_field-ByteOrNone fuel (from v) o h k = k
ttl_field-ByteOrNone fuel (dest v) o h k = k
ttl_field-ByteOrNone fuel (chan v) o h k = k
ttl_field-ByteOrNone fuel (ex_prefix v) o h k = k
ttl_field-ByteOrNone fuel (other u) o h k = k

last_ttl-ByteOrNone :
    (fuel : ℕ) (fs : List Field) (o : Option ℕ)
    → All (IsField fuel) fs
    → ByteOrNone o
    → ByteOrNone (last_ttl fs o)
last_ttl-ByteOrNone fuel [] o h k = k
last_ttl-ByteOrNone fuel (f ∷ fs) o h k =
    last_ttl-ByteOrNone fuel fs (ttl_field f o) h.1 (ttl_field-ByteOrNone fuel f o h.0 k)

abbrev less_one : Option ℕ → Option ℕ
less_one none = none
less_one (some v) = some ((v + 255) % 256)

ttl_field-forward :
    (f : Field) (o : Option ℕ) → ttl_field (forward f) (less_one o) ≡ less_one (ttl_field f o)
ttl_field-forward (ttl v) o = refl
ttl_field-forward (hops v) o = refl
ttl_field-forward (group v) o = refl
ttl_field-forward (version v) o = refl
ttl_field-forward (version_vp v) o = refl
ttl_field-forward (ex_number v) o = refl
ttl_field-forward (from v) o = refl
ttl_field-forward (dest v) o = refl
ttl_field-forward (chan v) o = refl
ttl_field-forward (ex_prefix v) o = refl
ttl_field-forward (other u) o = refl

last_ttl-forward :
    (fs : List Field) (o : Option ℕ)
    → last_ttl (map forward fs) (less_one o) ≡ less_one (last_ttl fs o)
last_ttl-forward [] o = refl
last_ttl-forward (f ∷ fs) o =
    ap (last_ttl (map forward fs)) (ttl_field-forward f o) ∙ last_ttl-forward fs (ttl_field f o)

sent-positive :
    {W : Type 0} (session : GnuId) (fs : List Field) (b : BroadcastState) (o : Outcome W)
    → Decided session fs b o
    → o.sent ≢ []
    → is_positive (ttl_left (last_ttl fs none)) ≡ true
sent-positive session fs b o (inl (l, e, n)) s = absurd (s n)
sent-positive session fs b o (inr (l, e, n)) s =
    elim (Bool-cases (is_positive (ttl_left (last_ttl fs none)))) [
      | inl p ↦ p
      | inr p ↦ absurd (s (n ∙ rw p refl))
    ]

ok-fst :
    {W : Type 0} (o p : Outcome W) (s t : List ℕ)
    → ◌≡◌ {A = Result (Outcome W) × List ℕ} (ok o, s) (ok p, t)
    → o ≡ p
ok-fst o p s t e = cc

positive-range : (v : ℕ) → v < 256 → is_positive (ttl_left (some v)) ≡ true → (2 ≤ v) × (v < 128)
positive-range v h p = ground arith

abbrev IsSetField : Field → Type 0
IsSetField f = IsSetting f × IsField 0 f

forward-IsSetField :
    (f : Field)
    → IsSetField f
    → IsSetField (forward f) × (length (bytes (forward (forward f))) ≡ length (bytes (forward f)))
forward-IsSetField (ttl v) h = ((tt, omega arith), refl)
forward-IsSetField (hops v) h = ((tt, omega arith), refl)
forward-IsSetField (group v) h = (h, refl)
forward-IsSetField (version v) h = (h, refl)
forward-IsSetField (version_vp v) h = (h, refl)
forward-IsSetField (ex_number v) h = (h, refl)
forward-IsSetField (from v) h = (h, refl)
forward-IsSetField (dest v) h = (h, refl)
forward-IsSetField (chan v) h = (h, refl)
forward-IsSetField (ex_prefix v) h = (h, refl)
forward-IsSetField (other t) h = absurd h.0

forward-fields :
    (pre : List Field)
    → All IsSetting pre
    → All (IsField 0) pre
    → All IsSetting (map forward pre)
      × (All (IsField 0) (map forward pre))
      × (size (map forward pre) ≡ size pre)
forward-fields [] h k = (tt, tt, refl)
forward-fields (f ∷ pre) h k =
    let (one, same) = forward-IsSetField f (h.0, k.0) in
    let (a, b, c) = forward-fields pre h.1 k.1 in ((one.0, a), (one.1, b), omega (arith, same, c))

CanCarry-forward :
    (pre : List Field) (c : Hit) (cid : GnuId)
    → CanCarry pre c cid
    → CanCarry (map forward pre) c cid
CanCarry-forward pre c cid can =
    let (a, b, e) = forward-fields pre can.settings can.fields in
    record { settings = a; fields = b; hit = can.hit; room = omega (arith, e, can.room) }

-- A hop of a message that carries a hit: its time to live, and the bytes that are sent.
Hop-carrying :
    (pre : List Field) (c : Hit) (cid : GnuId) (v : ℕ)
    → CanCarry pre c cid
    → last_ttl pre none ≡ some v
    → (h : Hop (carrying pre c cid))
    → ((2 ≤ v) × (v < 128)) × (((h.result).loop).out ≡ carrying (map forward pre) c cid)
Hop-carrying pre c cid v can e h =
    let (o, reads, d) =
      read_broadcast-carrying h.session h.now h.fuel pre c cid h.bcs h.routes h.world h.after can
        h.enough in
    let same = ok-fst o h.result h.after h.after (sym reads ∙ h.reads) in
    (
      positive-range v (subst ByteOrNone e (last_ttl-ByteOrNone 0 pre none can.fields tt)) (
          subst (λ x. is_positive (ttl_left x) ≡ true) e
            (sent-positive h.session pre
              ((set_by h.session h.now pre (length pre + 1) h.bcs h.routes h.world).bcs) o d.decided
              (λ n. h.sends (sym (ap (λ (x : Outcome World). x.sent) same) ∙ n)))),
      ap (λ (x : Outcome World). (x.loop).out) (sym same) ∙ d.out,
    )

-- A message with a time to live v, that holds settings and a hit, makes at most v - 1 hops, whichever peers
-- it meets and whatever their states are; none with a v of 0, 1, or from 128 on. Each peer reads the bytes that
-- the one before it has written.
pub Journey-bound :
    (pre : List Field) (c : Hit) (cid : GnuId) (v n : ℕ)
    → CanCarry pre c cid
    → last_ttl pre none ≡ some v
    → Journey (carrying pre c cid) n
    → (n ≤ v - 1) × ((n ≡ 0) ⊎ ((2 ≤ v) × (v < 128)))
Journey-bound pre c cid v zero can e j = (omega arith, inl refl)
Journey-bound pre c cid v (suc n) can e (hop h j) =
    let (r, out) = Hop-carrying pre c cid v can e h in
    let next =
      Journey-bound (map forward pre) c cid ((v + 255) % 256) n (CanCarry-forward pre c cid can)
        (last_ttl-forward pre none ∙ ap less_one e) (subst (λ bs. Journey bs n) out j) in
    (omega (arith, r, next.0), inr r)
