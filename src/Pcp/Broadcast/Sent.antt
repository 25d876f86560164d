-- ===== src/Pcp/Broadcast/Sent.antt =====
-- What becomes of a message: what is read of it, and what is sent on.
use peercast_yt.Prelude.{
  ℕ, suc, ◌+◌, ◌≤◌, ◌≡◌, ◌⊎◌, inl, inr, refl, sym, ap, ap₂, ◌∙◌, Bool, true, false, ◌&&◌, not,
  Option, none, some, List, [], ◌∷◌, ◌++◌, if◌then◌else◌, All, length, map,
}
use peercast_yt.Prelude.Words.{sub32}
use peercast_yt.GnuId
use peercast_yt.GnuId.{GnuId}
use peercast_yt.Io.{ok, bind_result, pure}
use peercast_yt.Atom.{write_parent}
use peercast_yt.Atom.Tree.{Tree}
use peercast_yt.Packet.{max_datalen}
use peercast_yt.Hits.Atoms.{joined}
use peercast_yt.Pcp.Broadcast.{
  BroadcastState, Loop, Handler, Outcome, char_int, is_positive, targets, outcome, finish, start,
  read_broadcast_atoms, error_loopback, pcp_bcst,
}
use peercast_yt.Pcp.Broadcast.Fields.{
  Field, ttl, hops, group, version, version_vp, ex_number, from, dest, chan, ex_prefix, other,
  bytes, forward, IsField, size, apply, apply_all, Handles,
}
use peercast_yt.Pcp.Broadcast.Round.{fields-loop, apply_all-out}

-- The message of some fields, its own atom included.
abbrev pub message : List Field → List ℕ
message fs = write_parent pcp_bcst (length fs) ++ joined (map bytes fs)

-- The last time to live and the last sender that a message names, or else `o`.
abbrev pub ttl_field : Field → Option ℕ → Option ℕ
ttl_field (ttl v) o = some v
ttl_field _ o = o

abbrev pub last_ttl : List Field → Option ℕ → Option ℕ
last_ttl [] o = o
last_ttl (f ∷ fs) o = last_ttl fs (ttl_field f o)

abbrev pub from_field : Field → List ℕ → List ℕ
from_field (from v) o = v
from_field _ o = o

abbrev pub last_from : List Field → List ℕ → List ℕ
last_from [] o = o
last_from (f ∷ fs) o = last_from fs (from_field f o)

-- The `ttl` that is tested: one less than the message says, and 1 if it says nothing.
abbrev pub ttl_left : Option ℕ → ℕ
ttl_left none = 1
ttl_left (some v) = sub32 (char_int v) 1

abbrev pub sender : List Field → GnuId
sender fs = record { id = last_from fs (GnuId.cleared).id; store_time = 0 }

abbrev pub is_loop : GnuId → List Field → Bool
is_loop session fs = GnuId.is_set (sender fs) && GnuId.is_same (sender fs) session

length-map : (fs : List Field) → length (map forward fs) ≡ length fs
length-map [] = refl
length-map (f ∷ fs) = ap suc (length-map fs)

module _ {W : Type 0} (read_atom : Handler W)
    (effect : Tree → BroadcastState × W → BroadcastState × W) (session : GnuId) (now : ℕ) where
  apply-ttl :
      (f : Field) (s : Loop W) (o : Option ℕ)
      → s.ttl ≡ ttl_left o
      → (apply effect session now f s).ttl ≡ ttl_left (ttl_field f o)
  apply-ttl (ttl v) s o h = refl
  apply-ttl (hops v) s o h = h
  apply-ttl (group v) s o h = h
  apply-ttl (version v) s o h = h
  apply-ttl (version_vp v) s o h = h
  apply-ttl (ex_number v) s o h = h
  apply-ttl (from v) s o h = h
  apply-ttl (dest v) s o h = h
  apply-ttl (chan v) s o h = h
  apply-ttl (ex_prefix v) s o h = h
  apply-ttl (other u) s o h = h

  apply_all-ttl :
      (fs : List Field) (s : Loop W) (o : Option ℕ)
      → s.ttl ≡ ttl_left o
      → (apply_all effect session now fs s).ttl ≡ ttl_left (last_ttl fs o)
  apply_all-ttl [] s o h = h
  apply_all-ttl (f ∷ fs) s o h =
      apply_all-ttl fs (apply effect session now f s) (ttl_field f o) (apply-ttl f s o h)

  apply-from :
      (f : Field) (s : Loop W) (o : List ℕ)
      → s.from ≡ record { id = o; store_time = 0 }
      → (apply effect session now f s).from ≡ record { id = from_field f o; store_time = 0 }
  apply-from (ttl v) s o h = h
  apply-from (hops v) s o h = h
  apply-from (group v) s o h = h
  apply-from (version v) s o h = h
  apply-from (version_vp v) s o h = h
  apply-from (ex_number v) s o h = h
  apply-from (from v) s o h = ap (λ (g : GnuId). record g { id = v }) h
  apply-from (dest v) s o h = h
  apply-from (chan v) s o h = h
  apply-from (ex_prefix v) s o h = h
  apply-from (other u) s o h = h

  apply_all-from :
      (fs : List Field) (s : Loop W) (o : List ℕ)
      → s.from ≡ record { id = o; store_time = 0 }
      → (apply_all effect session now fs s).from ≡ record { id = last_from fs o; store_time = 0 }
  apply_all-from [] s o h = h
  apply_all-from (f ∷ fs) s o h =
      apply_all-from fs (apply effect session now f s) (from_field f o) (apply-from f s o h)

-- What becomes of a message: it is answered as a loop if its sender is this peer, and else sent on to the
-- targets of its group, if there is time to live left and it is not for this peer alone.
abbrev pub Decided : {W : Type 0} → GnuId → List Field → BroadcastState → Outcome W → Type 0
Decided session fs b o =
    ((is_loop session fs ≡ true) × (o.error ≡ error_loopback) × (o.sent ≡ []))
    ⊎ ((is_loop session fs ≡ false)
        × (o.error ≡ 0)
        × (o.sent ≡ (
            if is_positive (ttl_left (last_ttl fs none)) && not b.for_me
            then targets b.group
            else [])))

outcome-Decided :
    {W : Type 0} (a b : Bool) (s : Loop W)
    → ((a ≡ true) × ((outcome a b s).error ≡ error_loopback) × ((outcome a b s).sent ≡ []))
      ⊎ ((a ≡ false)
          × ((outcome a b s).error ≡ 0)
          × ((outcome a b s).sent ≡ (if b then targets (s.bcs).group else [])))
unfolding outcome
outcome-Decided true b s = inl (refl, refl, refl)
outcome-Decided false true s = inr (refl, refl, refl)
outcome-Decided false false s = inr (refl, refl, refl)

outcome-loop : {W : Type 0} (a b : Bool) (s : Loop W) → (outcome a b s).loop ≡ s
unfolding outcome
outcome-loop true b s = refl
outcome-loop false true s = refl
outcome-loop false false s = refl

finish-outcome :
    {W : Type 0} (session : GnuId) (fs : List Field) (s : Loop W)
    → s.ttl ≡ ttl_left (last_ttl fs none)
    → s.from ≡ sender fs
    → finish session s
      ≡ outcome
          (is_loop session fs)
          (is_positive (ttl_left (last_ttl fs none)) && not (s.bcs).for_me)
          s
unfolding finish
finish-outcome session fs s t f =
    ap₂
      (λ (g : GnuId) (n : ℕ).
        outcome (GnuId.is_set g && GnuId.is_same g session) (is_positive n && not (s.bcs).for_me) s)
      f t

-- A message of fields that fit, in a packet that holds it, whose other atoms `readAtom` takes in full.
pub record Good {W : Type 0} (read_atom : Handler W)
    (effect : Tree → BroadcastState × W → BroadcastState × W) (session : GnuId) (now fuel : ℕ)
    (fs : List Field) : Type 0 where
  pub fields : All (IsField fuel) fs
  pub handled : All (Handles effect session now read_atom) fs
  pub room : 8 + size fs ≤ max_datalen

-- Of a message whose fields fit their atoms, and whose copy fits a packet, and for a `readAtom` that takes
-- in full the atoms in it that are no settings: `readBroadcastAtoms` reads it in full, whatever follows it,
-- with the effect that each of its fields has, in their order. The packet that it makes is the message with its time to live one lower and
-- its hops one higher, as bytes, and all else as it was, but that a parent without children is copied as an
-- empty leaf. The message is answered as a loop, and not sent, if its last sender is this peer; else it is
-- sent on to the targets of its group exactly if it is not for this peer and its time to live, less one,
-- is above 0.
pub broadcast_lem :
    {W : Type 0} (read_atom : Handler W) (effect : Tree → BroadcastState × W → BroadcastState × W)
    (session : GnuId) (now fuel : ℕ) (fs : List Field) (bcs : BroadcastState) (routes : List GnuId)
    (w : W) (t : List ℕ)
    → Good read_atom effect session now fuel fs
    → (o : Outcome W) × (read_broadcast_atoms read_atom session now fuel
          (length fs)
          bcs
          routes
          w
          (joined (map bytes fs) ++ t)
        ≡ (ok o, t))
      × (o.loop ≡ apply_all effect session now fs (start (length fs) bcs routes w))
      × ((o.loop).out ≡ message (map forward fs))
      × Decided session fs (apply_all effect session now fs (start (length fs) bcs routes w)).bcs o
unfolding read_broadcast_atoms
broadcast_lem read_atom effect session now fuel fs bcs routes w t g =
    let s = apply_all effect session now fs (start (length fs) bcs routes w) in
    let looped = is_loop session fs in
    let sends = is_positive (ttl_left (last_ttl fs none)) && not (s.bcs).for_me in
    let same = outcome-loop looped sends s in
    (
      outcome looped sends s,
      ap (λ r. bind_result r (λ s. pure (finish session s)))
            (fields-loop read_atom effect session now fuel fs (start (length fs) bcs routes w) t
              g.fields g.handled g.room)
          ∙ ap (λ o. (ok o, t))
              (finish-outcome session fs s
                (apply_all-ttl read_atom effect session now fs (start (length fs) bcs routes w) none
                  refl)
                (apply_all-from read_atom effect session now fs (start (length fs) bcs routes w)
                  (GnuId.cleared).id refl)),
      same,
      ap (λ l. l.out) same
          ∙ apply_all-out read_atom effect session now fuel fs (start (length fs) bcs routes w)
          ∙ ap (λ n. write_parent pcp_bcst n ++ joined (map bytes (map forward fs)))
              (sym (length-map fs)),
      outcome-Decided looped sends s,
    )
