-- ===== src/Pcp/Packets/Arrival.antt =====
-- A packet that is sent, read, and put in the buffer of the channel.
use peercast_yt.Prelude.{
  ℕ, ◌-◌, ◌%◌, ◌≡◌, ◌≢◌, ◌⊎◌, refl, sym, ap, ◌∙◌, inl, inr, subst, Bool, true, false, ◌||◌, List,
  [], ◌++◌, ◌==◌, ==_iff, if◌then◌else◌, arith,
}
use peercast_yt.Prelude.Words.{add32}
use peercast_yt.Io.{ok}
use peercast_yt.GnuId.{GnuId}
use peercast_yt.Packet.{Packet, Content, view, IsWhole, t_head, t_data, reset, assign, view-assign}
use peercast_yt.Packet.Buffer.{Buffer, slot, will_skip, put, write_packet, max_packets}
use peercast_yt.Hits.Atoms.{joined}
use peercast_yt.Pcp.Packets.{
  pkt_parts, send_packet, chan_atom, read_pkt_atoms, Chan, restart, put_packet, take_packet,
}
use peercast_yt.Pcp.Packets.Relay.{Sent, relayed, Gives, parts_lem}

-- The packet, numbered, is shown in its place.
put-slot :
    (now : ℕ) (b : Buffer) (q : Packet)
    → IsWhole q
    → view (slot (put now b (record q { sync = b.write_pos }) true) b.write_pos)
      ≡ record (view q) { sync = b.write_pos }
unfolding put
put-slot now b q whole =
    subst
      (λ c.
        view (
          if c
          then assign (slot b b.write_pos) (record q { sync = b.write_pos })
          else slot b b.write_pos)
        ≡ record (view q) { sync = b.write_pos })
      (sym (same (b.write_pos % 64)))
      (view-assign (slot b b.write_pos) (record q { sync = b.write_pos }) whole)
  where
    same : (k : ℕ) → (k == k) ≡ true
    same k = ground arith

-- The channel behind the check for a restart.
abbrev pub ready : Packet → Chan → Chan
ready p ch = if p.kind == t_head then restart p ch else ch

-- The buffer after a packet that shows `c` was put in it at time `now`, and all of it read: the packet stands
-- in the next place, with its number, the other places are as they were, and so is what is accepted.
pub record Placed (c : Content) (now : ℕ) (before after : Buffer) : Type 0 where
  pub there : view (slot after before.write_pos) ≡ record c { sync = before.write_pos }
  pub others :
      (i : ℕ) → i % max_packets ≢ before.write_pos % max_packets → slot after i ≡ slot before i
  pub write_pos : after.write_pos ≡ add32 before.write_pos 1
  pub read_pos : after.read_pos ≡ add32 before.write_pos 1
  pub last_pos : after.last_pos ≡ before.write_pos
  pub first_pos : after.first_pos ≡ add32 before.write_pos 1 - 64
  pub safe_pos : after.safe_pos ≡ add32 before.write_pos 1 - 56
  pub accept : after.accept ≡ before.accept
  pub time : after.last_write_time ≡ now

-- The channel after that: its position is the end of the packet, and a head is kept.
pub record Put (c : Content) (now : ℕ) (before after : Chan) : Type 0 where
  pub stored : Placed c now before.raw_data after.raw_data
  pub pos : after.stream_pos ≡ add32 c.pos c.len
  pub index : after.stream_index ≡ before.stream_index
  pub head :
      ((c.kind ≡ t_head) × (view after.head_pack ≡ c))
      ⊎ ((c.kind ≢ t_head) × (after.head_pack ≡ before.head_pack))

put-Placed :
    (now : ℕ) (b : Buffer) (q : Packet)
    → IsWhole q
    → Placed (view q) now b (put now b (record q { sync = b.write_pos }) true)
unfolding put
put-Placed now b q whole = record {
  there = put-slot now b q whole;
  others = λ i h. rw (different (i % 64) (b.write_pos % 64) h) refl;
  write_pos = refl;
  read_pos = refl;
  last_pos = refl;
  first_pos = ground arith;
  safe_pos = ground arith;
  accept = refl;
  time = refl;
}
  where
    different : (k l : ℕ) → k ≢ l → (k == l) ≡ false
    different k l h = ground (arith, h)

write_packet-Placed :
    (now : ℕ) (b : Buffer) (q : Packet)
    → IsWhole q
    → q.len ≢ 0
    → will_skip b ≡ false
    → Placed (view q) now b (write_packet now b q true).0
unfolding write_packet
write_packet-Placed now b q whole some room = rw (nonzero, room) (put-Placed now b q whole)
  where
    nonzero : (q.len == 0) ≡ false
    nonzero = ground arith

put_packet-Put :
    (now : ℕ) (q x : Packet) (ch : Chan)
    → IsWhole q
    → q.len ≢ 0
    → will_skip ch.raw_data ≡ false
    → ((q.kind ≡ t_head) × (view x ≡ view q)) ⊎ ((q.kind ≢ t_head) × (x ≡ ch.head_pack))
    → Put (view q) now ch (put_packet now q (record ch { head_pack = x }))
unfolding put_packet
put_packet-Put now q x ch whole some room h = record {
  stored = write_packet-Placed now ch.raw_data q whole some room;
  pos = refl;
  index = refl;
  head = h;
}

-- `take_packet` by the kind of the packet.
by_kind : ℕ → Packet → Chan → Bool → Bool → Chan
by_kind now q ch head other =
    if head
    then put_packet now q (record (restart q ch) { head_pack = assign (restart q ch).head_pack q })
    else if other
    then put_packet now q ch
    else ch

take_packet-by_kind :
    (now : ℕ) (q : Packet) (ch : Chan)
    → take_packet now q ch ≡ by_kind now q ch (q.kind == t_head) (q.kind == t_data)
unfolding take_packet by_kind
take_packet-by_kind now q ch = refl

by_kind-Put :
    (now : ℕ) (q : Packet) (ch : Chan) (head other : Bool)
    → (q.kind == t_head) ≡ head
    → (head || other) ≡ true
    → IsWhole q
    → q.len ≢ 0
    → will_skip (if head then restart q ch else ch).raw_data ≡ false
    → Put (view q) now (if head then restart q ch else ch) (by_kind now q ch head other)
unfolding by_kind
by_kind-Put now q ch true other e k whole some room =
    put_packet-Put now q (assign (restart q ch).head_pack q) (restart q ch) whole some room
      (inl ((==_iff q.kind t_head).0 e, view-assign (restart q ch).head_pack q whole))
by_kind-Put now q ch false true e k whole some room =
    put_packet-Put now q ch.head_pack ch whole some room (inr (ground (arith, e), refl))
by_kind-Put now q ch false false e k whole some room = cc

pub is_channel_kind : (k : ℕ) → (k ≡ t_head) ⊎ (k ≡ t_data) → (k == t_head || k == t_data) ≡ true
is_channel_kind k (inl e) = ground arith
is_channel_kind k (inr e) = ground arith

take_packet_lem :
    (now : ℕ) (q : Packet) (ch : Chan)
    → (q.kind ≡ t_head) ⊎ (q.kind ≡ t_data)
    → IsWhole q
    → q.len ≢ 0
    → will_skip (ready q ch).raw_data ≡ false
    → Put (view q) now (ready q ch) (take_packet now q ch)
take_packet_lem now q ch kind whole some room =
    subst (Put (view q) now (ready q ch)) (sym (take_packet-by_kind now q ch)) (
      by_kind-Put now q ch (q.kind == t_head) (q.kind == t_data) refl (is_channel_kind q.kind kind)
        whole some room)

restart-pos : (p q : Packet) (ch : Chan) → q.pos ≡ p.pos → restart q ch ≡ restart p ch
unfolding restart
restart-pos p q ch e = ap (λ n. restart (record q { pos = n }) ch) e

ready-view : (p q : Packet) (ch : Chan) → view q ≡ relayed p → ready q ch ≡ ready p ch
unfolding restart
ready-view p q ch e =
    ap (λ k. if k == t_head then restart q ch else ch) (ap (λ (c : Content). c.kind) e)
    ∙ ap (λ r. if p.kind == t_head then r else ch)
        (restart-pos p q ch (ap (λ (c : Content). c.pos) e))

-- A packet on its way from one peer to the next. `sendPCPChannel` writes a head or a data packet
-- that holds its payload, of at most MAX_DATALEN bytes and at a position below 2 ^ 32, as the atom of its
-- channel and the atom of the packet; `readPktAtoms` reads the latter's children in full,
-- whatever follows them, and the packet that it gets has the type, position, length and payload of the
-- one that was sent, and its continuation mark if it is not a head. If the packet is not empty and the
-- buffer of the channel has room, this packet is then the newest of the buffer, in the place behind the one
-- that was, with the number of this place; every other place stays as it was, the window moves one on, and
-- the reader is set behind the packet. The channel's position is the end of the packet, a head becomes its
-- head, and a head at position 0 first starts the stream anew.
pub relay_lem :
    (chan : GnuId) (p old : Packet) (fuel now : ℕ) (t : List ℕ) (ch : Chan)
    → Sent p
    → p.len ≢ 0
    → will_skip (ready p ch).raw_data ≡ false
    → (send_packet chan p ≡ chan_atom chan (pkt_parts p).0 (pkt_parts p).1)
      × ((q : Packet) × (read_pkt_atoms fuel
              (pkt_parts p).0
              (reset old)
              (joined (pkt_parts p).1 ++ t)
            ≡ (ok q, t))
          × Put (relayed p) now (ready p ch) (take_packet now q ch))
unfolding send_packet Gives reset
relay_lem chan p old fuel now t ch s some room =
    let (q, e, v, w) = parts_lem p s (reset old) fuel t refl refl in
    (
      ap (λ b. if b then chan_atom chan (pkt_parts p).0 (pkt_parts p).1 else [])
          (is_channel_kind p.kind s.kind),
      (
        q,
        e,
        subst (λ c. Put c now (ready p ch) (take_packet now q ch)) v
            (subst (λ r. Put (view q) now r (take_packet now q ch)) (ready-view p q ch v)
              (take_packet_lem now q ch (same_kind q v) w
                (λ z. some (sym (ap (λ (c : Content). c.len) v) ∙ z))
                (ap (λ (r : Chan). will_skip r.raw_data) (ready-view p q ch v) ∙ room))),
      ),
    )
  where
    same_kind : (q : Packet) → view q ≡ relayed p → (q.kind ≡ t_head) ⊎ (q.kind ≡ t_data)
    same_kind q v =
        subst (λ k. (k ≡ t_head) ⊎ (k ≡ t_data)) (sym (ap (λ (c : Content). c.kind) v)) s.kind
