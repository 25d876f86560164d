-- ===== src/Pcp/Routing/Once.antt =====
-- Whom the calls for a group reach, taken together.
use peercast_yt.Prelude.{
  ℕ, ◌≡◌, ◌⊎◌, inl, inr, refl, sym, ap, ◌∙◌, Bool, true, false, List, [], ◌∷◌, ◌++◌, ◌==◌, ==_iff,
  if◌then◌else◌, Bool-cases, map, subst,
}
use mathlib.Core.List.{map-map}
use peercast_yt.GnuId.{GnuId}
use peercast_yt.Packet.{Packet}
use peercast_yt.Pcp.Broadcast.{in_group, targets, when, up, cout, cin, relay}
use peercast_yt.Pcp.Routing.{
  Servent, ServentType, t_cout, t_cin, t_relay, type_value, Net, servent_send, broadcast_packet,
  send_to, send_all, send_group, is_meant,
}
use peercast_yt.Pcp.Routing.Delivery.{All₂, Asked, Gets, servent_send-cases}

-- The types, by their numbers, that a group has: root, trackers and relays are the bits 1, 2 and 4.
abbrev pub has_type : ℕ → ℕ → Bool
has_type group v =
    if v == 5
    then in_group group 7
    else if v == 6
    then in_group group 6
    else if v == 3
    then in_group group 4
    else false

module _ (now : ℕ) (pack : Packet) (cid sid did : GnuId) where
  -- The servent is offered the packet as one of a type of the group, or it is for none of these types, and
  -- stays as it is.
  pub record Heard (group : ℕ) (sv sv' : Servent) : Type 0 where
    pub kind : ServentType
    pub called : has_type group (type_value kind) ≡ true
    pub gets : Gets now pack cid sid did kind sv sv'

  pub record Quiet (group : ℕ) (sv sv' : Servent) : Type 0 where
    pub not_asked :
        (t : ServentType)
        → has_type group (type_value t) ≡ true
        → (st : _) → ¬ Asked cid sid did t sv st
    pub same : sv' ≡ sv

  step : Bool → ServentType → Servent → Servent
  step b t sv = if b then (servent_send now pack cid sid did t sv).0 else sv

  -- A call on all servents, if the group asks for it.
  sends : Bool → ServentType → List Servent → List Servent
  sends b t svs = if b then (broadcast_packet now pack cid sid did t svs).0 else svs

  sends-map : (b : Bool) (t : ServentType) (svs : List Servent) → sends b t svs ≡ map (step b t) svs
  unfolding sends broadcast_packet step
  sends-map false t [] = refl
  sends-map false t (sv ∷ svs) = ap (λ r. sv ∷ r) (sends-map false t svs)
  sends-map true t [] = refl
  sends-map true t (sv ∷ svs) =
      ap (λ r. (servent_send now pack cid sid did t sv).0 ∷ r) (sends-map true t svs)

  send_all-servents :
      (a b c : Bool) (n : Net)
      → (send_all now pack cid sid did
          (when a (up ∷ []) ++ (when a (cout ∷ []) ++ (when b (cin ∷ []) ++ when c (relay ∷ []))))
          n).servents
        ≡ sends c t_relay (sends b t_cin (sends a t_cout n.servents))
  unfolding send_all send_to sends
  send_all-servents true true true n = refl
  send_all-servents true true false n = refl
  send_all-servents true false true n = refl
  send_all-servents true false false n = refl
  send_all-servents false true true n = refl
  send_all-servents false true false n = refl
  send_all-servents false false true n = refl
  send_all-servents false false false n = refl

  step-kind : (b : Bool) (t : ServentType) (sv : Servent) → (step b t sv).kind ≡ sv.kind
  unfolding step servent_send
  step-kind false t sv = refl
  step-kind true t sv = elim (Bool-cases (is_meant cid sid t sv)) [
    | inl e ↦ rw e refl
    | inr e ↦ rw e refl
  ]

  step-other :
      (b : Bool) (t : ServentType) (sv : Servent)
      → (type_value sv.kind == type_value t) ≡ false
      → step b t sv ≡ sv
  unfolding step servent_send
  step-other false t sv h = refl
  step-other true t sv h = rw h refl

  retype :
      (t t' : ServentType) (sv : Servent) (st : _)
      → type_value sv.kind ≡ type_value t'
      → Asked cid sid did t sv st
      → Asked cid sid did t' sv st
  retype t t' sv st e a = record {
    has = a.has;
    kind = e;
    connected = a.connected;
    channel = a.channel;
    no_echo = a.no_echo;
    leads = a.leads;
  }

  quiet :
      (group : ℕ) (sv sv' : Servent)
      → has_type group (type_value sv.kind) ≡ false
      → sv' ≡ sv
      → Quiet group sv sv'
  quiet group sv sv' h e = record {
    not_asked = λ t c st a. (let both = sym h ∙ ap (has_type group) a.kind ∙ c in cc);
    same = e;
  }

  -- A servent of the type.
  step-reaches :
      (group : ℕ) (t : ServentType) (b : Bool) (sv sv' : Servent)
      → type_value sv.kind ≡ type_value t
      → has_type group (type_value t) ≡ b
      → sv' ≡ step b t sv
      → Heard group sv sv' ⊎ Quiet group sv sv'
  unfolding step
  step-reaches group t false sv sv' k h e = inr (quiet group sv sv' (ap (has_type group) k ∙ h) e)
  step-reaches group t true sv sv' k h e = elim (servent_send-cases now pack cid sid did t sv) [
    | inl s ↦ inr (record {
      not_asked = λ t' c st a. s.not_asked st (retype t' t sv st k a);
      same = e ∙ s.same;
    })
    | inr g ↦ inl (record {
      kind = t;
      called = h;
      gets = record { stream = g.stream; asked = g.asked; result = e ∙ g.result };
    })
  ]

  -- What all calls do to a servent.
  steps : ℕ → Servent → Servent
  steps group sv =
      step (in_group group 4) t_relay
        (step (in_group group 6) t_cin (step (in_group group 7) t_cout sv))

  send_group-map :
      (group : ℕ) (n : Net)
      → (send_group now pack cid sid did group n).servents ≡ map (steps group) n.servents
  unfolding send_group targets steps
  send_group-map group n =
      send_all-servents (in_group group 7) (in_group group 6) (in_group group 4) n
      ∙ ap (λ l. sends (in_group group 4) t_relay (sends (in_group group 6) t_cin l))
          (sends-map (in_group group 7) t_cout n.servents)
      ∙ ap (sends (in_group group 4) t_relay)
          (sends-map (in_group group 6) t_cin (map (step (in_group group 7) t_cout) n.servents))
      ∙ sends-map (in_group group 4) t_relay _
      ∙ ap (map (step (in_group group 4) t_relay)) (map-map _ _ n.servents)
      ∙ map-map _ _ n.servents

  pass :
      (b : Bool) (t : ServentType) (sv w : Servent)
      → w.kind ≡ sv.kind
      → (type_value sv.kind == type_value t) ≡ false
      → step b t w ≡ w
  pass b t sv w k h = step-other b t w (ap (λ x. type_value x == type_value t) k ∙ h)

  steps-reach :
      (group : ℕ) (sv : Servent) → Heard group sv (steps group sv) ⊎ Quiet group sv (steps group sv)
  unfolding steps
  steps-reach group sv = elim (Bool-cases (type_value sv.kind == 5)) [
    | inl e ↦
        let v = (==_iff (type_value sv.kind) 5).0 e in
        step-reaches group t_cout (in_group group 7) sv _ v refl (
          pass (in_group group 4) t_relay sv second
            (step-kind (in_group group 6) t_cin first ∙ step-kind (in_group group 7) t_cout sv)
            (ap (λ x. x == 3) v)
          ∙ pass (in_group group 6) t_cin sv first (step-kind (in_group group 7) t_cout sv)
              (ap (λ x. x == 6) v))
    | inr e ↦
        let e1 : first ≡ sv = pass (in_group group 7) t_cout sv sv refl e in
        let e2 : second ≡ step (in_group group 6) t_cin sv =
          ap (step (in_group group 6) t_cin) e1 in
        elim (Bool-cases (type_value sv.kind == 6)) [
          | inl f ↦
              let v = (==_iff (type_value sv.kind) 6).0 f in
              step-reaches group t_cin (in_group group 6) sv _ v refl (
                ap (step (in_group group 4) t_relay) e2
                ∙ pass (in_group group 4) t_relay sv (step (in_group group 6) t_cin sv)
                    (step-kind (in_group group 6) t_cin sv) (ap (λ x. x == 3) v))
          | inr f ↦
              let e3 : second ≡ sv = e2 ∙ pass (in_group group 6) t_cin sv sv refl f in
              elim (Bool-cases (type_value sv.kind == 3)) [
                | inl g ↦
                    step-reaches group t_relay (in_group group 4) sv _
                      ((==_iff (type_value sv.kind) 3).0 g) refl
                      (ap (step (in_group group 4) t_relay) e3)
                | inr g ↦ inr (
                    quiet group sv _ (rw (e, f, g) refl) (
                      ap (step (in_group group 4) t_relay) e3
                      ∙ pass (in_group group 4) t_relay sv sv refl g))
              ]
        ]
  ]
    where
      first : Servent
      first = step (in_group group 7) t_cout sv

      second : Servent
      second = step (in_group group 6) t_cin first

All₂-map :
    {A : Type 0} (R : A → A → Type 0) (f : A → A) (xs : List A)
    → ((x : A) → R x (f x))
    → All₂ R xs (map f xs)
All₂-map R f [] h = tt
All₂-map R f (x ∷ xs) h = (h x, All₂-map R f xs h)

-- The calls that `readBroadcastAtoms` makes for a group, one after another, offer the packet to each servent
-- at most once: to those of the types of the group that are connected, of the channel if one is given,
-- not the peer from which it came, and on the way to the destination if there is one. Every other servent
-- stays as it is.
pub send_group-Heard :
    (now : ℕ) (pack : Packet) (cid sid did : GnuId) (group : ℕ) (n : Net)
    → All₂
        (λ sv sv'.
          Heard now pack cid sid did group sv sv' ⊎ Quiet now pack cid sid did group sv sv')
        n.servents
        (send_group now pack cid sid did group n).servents
send_group-Heard now pack cid sid did group n =
    subst
      (All₂
        (λ sv sv'.
          Heard now pack cid sid did group sv sv' ⊎ Quiet now pack cid sid did group sv sv')
        n.servents)
      (sym (send_group-map now pack cid sid did group n))
      (All₂-map _ (steps now pack cid sid did group) n.servents
        (steps-reach now pack cid sid did group))
