-- ===== src/Pcp/Routing/Delivery.antt =====
-- Who gets a packet that is broadcast.
use peercast_yt.Prelude.{
  ℕ, ◌≡◌, ◌⊎◌, inl, inr, refl, sym, ap, ◌∙◌, Bool, true, false, ◌&&◌, ◌||◌, not, Option, none, some,
  List, [], ◌∷◌, ◌==◌, ==_iff, Bool-cases,
}
use peercast_yt.GnuId
use peercast_yt.GnuId.{GnuId}
use peercast_yt.Packet.{Packet}
use peercast_yt.Packet.Buffer.{write_packet}
use peercast_yt.Pcp.Routing.{
  Stream, Servent, ServentType, type_value, is_routed, is_for, is_other, is_meant, stream_send,
  send_on, servent_send, broadcast_packet,
}

-- A relation between the elements of two lists of the same length, in order.
abbrev pub All₂ : {A : Type 0} → (A → A → Type 0) → List A → List A → Type 0
All₂ R [] [] = Unit
All₂ R [] (y ∷ ys) = ⊥
All₂ R (x ∷ xs) [] = ⊥
All₂ R (x ∷ xs) (y ∷ ys) = R x y × All₂ R xs ys

-- The stream after the packet was offered to its buffer, and whether the buffer took it.
abbrev pub with_packet : ℕ → Packet → Stream → Stream
with_packet now pack st = record st { out_data = (write_packet now st.out_data pack false).0 }

abbrev pub takes : ℕ → Packet → Stream → Bool
takes now pack st = (write_packet now st.out_data pack false).2

-- The stream is the destination's, or leads to it, if there is one.
abbrev pub Leads : GnuId → Stream → Type 0
Leads did st =
    (GnuId.is_set did ≡ false)
    ⊎ (GnuId.is_same did st.remote_id ≡ true)
    ⊎ (GnuId.contains st.route_list did ≡ true)

abbrev pub IsFor : GnuId → GnuId → Type 0
IsFor cid chan = (GnuId.is_set cid ≡ false) ⊎ (GnuId.is_same chan cid ≡ true)

abbrev pub IsNotFrom : GnuId → GnuId → Type 0
IsNotFrom sid remote = (GnuId.is_set sid ≡ false) ⊎ (GnuId.is_same sid remote ≡ false)

is_routed-Leads : (did : GnuId) (st : Stream) → is_routed did st ≡ true → Leads did st
is_routed-Leads did st h = elim (Bool-cases (GnuId.is_set did)) [
  | inr e ↦ inl e
  | inl e ↦ elim (Bool-cases (GnuId.is_same did st.remote_id)) [
    | inl f ↦ inr (inl f)
    | inr f ↦ inr (inr (sym (rw (e, f) refl) ∙ h))
  ]
]

or-IsFor : (a b : Bool) → (not a || b) ≡ true → (a ≡ false) ⊎ (b ≡ true)
or-IsFor true b h = inr h
or-IsFor false b h = inl refl

not-true : (b : Bool) → not b ≡ true → b ≡ false
not-true true h = cc
not-true false h = refl

and_all :
    (a b c d : Bool) → (a && b && c && d) ≡ true → (a ≡ true) × (b ≡ true) × (c ≡ true) × (d ≡ true)
and_all true true true true h = (refl, refl, refl, refl)
and_all true true true false h = cc
and_all true true false d h = cc
and_all true false c d h = cc
and_all false b c d h = cc

or-IsNotFrom : (a b : Bool) → (not a || not b) ≡ true → (a ≡ false) ⊎ (b ≡ false)
or-IsNotFrom true b h = inr (not-true b h)
or-IsNotFrom false b h = inl refl

is_routed-intro : (did : GnuId) (st : Stream) → Leads did st → is_routed did st ≡ true
is_routed-intro did st (inl e) = rw e refl
is_routed-intro did st (inr (inl f)) = elim (Bool-cases (GnuId.is_set did)) [
  | inr e ↦ rw e refl
  | inl e ↦ rw (e, f) refl
]
is_routed-intro did st (inr (inr g)) = elim (Bool-cases (GnuId.is_set did)) [
  | inr e ↦ rw e refl
  | inl e ↦ elim (Bool-cases (GnuId.is_same did st.remote_id)) [
    | inl f ↦ rw (e, f) refl
    | inr f ↦ rw (e, f) g
  ]
]

is_for-intro : (cid chan : GnuId) → IsFor cid chan → is_for cid chan ≡ true
is_for-intro cid chan (inl e) = rw e refl
is_for-intro cid chan (inr e) = elim (Bool-cases (GnuId.is_set cid)) [
  | inl f ↦ rw (f, e) refl
  | inr f ↦ rw f refl
]

is_other-intro : (sid remote : GnuId) → IsNotFrom sid remote → is_other sid remote ≡ true
is_other-intro sid remote (inl e) = rw e refl
is_other-intro sid remote (inr e) = elim (Bool-cases (GnuId.is_set sid)) [
  | inl f ↦ rw (f, e) refl
  | inr f ↦ rw f refl
]

-- The servent is one that the packet is for, and has the stream.
pub record Asked (cid sid did : GnuId) (t : ServentType) (sv : Servent) (stream : Stream)
    : Type 0 where
  pub has : sv.pcp_stream ≡ some stream
  pub kind : type_value sv.kind ≡ type_value t
  pub connected : sv.connected ≡ true
  pub channel : IsFor cid sv.chan_id
  pub no_echo : IsNotFrom sid sv.remote_id
  pub leads : Leads did stream

-- What a broadcast does to one servent: its stream is offered the packet, if the packet is for it, or nothing.
pub record Gets (now : ℕ) (pack : Packet) (cid sid did : GnuId) (t : ServentType) (sv sv' : Servent)
    : Type 0 where
  pub stream : Stream
  pub asked : Asked cid sid did t sv stream
  pub result : sv' ≡ record sv { pcp_stream = some (with_packet now pack stream) }

pub record Stays (cid sid did : GnuId) (t : ServentType) (sv sv' : Servent) : Type 0 where
  pub not_asked : (st : Stream) → ¬ Asked cid sid did t sv st
  pub same : sv' ≡ sv

is_meant-intro :
    (cid sid did : GnuId) (t : ServentType) (sv : Servent) (st : Stream)
    → Asked cid sid did t sv st
    → is_meant cid sid t sv ≡ true
is_meant-intro cid sid did t sv st a =
    rw
      (
        (==_iff (type_value sv.kind) (type_value t)).1 a.kind,
        a.connected,
        is_for-intro cid sv.chan_id a.channel,
        is_other-intro sid sv.remote_id a.no_echo,
      )
      refl

servent_send-stream :
    (now : ℕ) (pack : Packet) (cid sid did : GnuId) (t : ServentType) (sv : Servent)
    → is_meant cid sid t sv ≡ true
    → (o : Option Stream) → sv.pcp_stream ≡ o
    → let sv' = record sv { pcp_stream = (send_on now pack did o).0 } in
      Stays cid sid did t sv sv' ⊎ Gets now pack cid sid did t sv sv'
unfolding stream_send
servent_send-stream now pack cid sid did t sv e none h = inl (record {
  not_asked = λ st a. (let b = a.has in cc);
  same = ap (λ o. record sv { pcp_stream = o }) (sym h);
})
servent_send-stream now pack cid sid did t sv e (some st) h = elim (Bool-cases (is_routed did st)) [
  | inl r ↦
      let m =
        and_all (type_value sv.kind == type_value t) sv.connected (is_for cid sv.chan_id)
          (is_other sid sv.remote_id) e in
      inr (
        rw r (record {
          stream = st;
          asked = record {
            has = h;
            kind = (==_iff (type_value sv.kind) (type_value t)).0 m.0;
            connected = m.1;
            channel = or-IsFor _ _ m.2;
            no_echo = or-IsNotFrom _ _ m.3;
            leads = is_routed-Leads did st r;
          };
          result = refl;
        }))
  | inr r ↦ inl (
      rw r (record {
        not_asked = λ st' a.
            let both = is_routed-intro did st' a.leads in
            let joint : some st ≡ some st' = sym h ∙ a.has in
            let same : st ≡ st' = cc in let other = ap (is_routed did) same in cc;
        same = ap (λ o. record sv { pcp_stream = o }) (sym h);
      }))
]

pub servent_send-cases :
    (now : ℕ) (pack : Packet) (cid sid did : GnuId) (t : ServentType) (sv : Servent)
    → let sv' = (servent_send now pack cid sid did t sv).0 in
      Stays cid sid did t sv sv' ⊎ Gets now pack cid sid did t sv sv'
unfolding servent_send
servent_send-cases now pack cid sid did t sv = elim (Bool-cases (is_meant cid sid t sv)) [
  | inr e ↦ inl (
      rw e (record {
        not_asked = λ st a. (let b = is_meant-intro cid sid did t sv st a in cc);
        same = refl;
      }))
  | inl e ↦ rw e (servent_send-stream now pack cid sid did t sv e sv.pcp_stream refl)
]

-- `broadcastPacket` offers the packet to the buffer of exactly those servents' streams for which it is
-- meant: the servent is connected, of the type asked for, of the channel if one is given, and not the peer
-- from which the packet came; and its stream is the destination's or has it in its routes, if there is
-- one. Every other servent stays as it is, and so do their order and all else of each of them.
pub broadcast_packet-Gets :
    (now : ℕ) (pack : Packet) (cid sid did : GnuId) (t : ServentType) (svs : List Servent)
    → All₂
        (λ sv sv'. Stays cid sid did t sv sv' ⊎ Gets now pack cid sid did t sv sv')
        svs
        (broadcast_packet now pack cid sid did t svs).0
unfolding broadcast_packet
broadcast_packet-Gets now pack cid sid did t [] = tt
broadcast_packet-Gets now pack cid sid did t (sv ∷ svs) =
    (servent_send-cases now pack cid sid did t sv, broadcast_packet-Gets now pack cid sid did t svs)
