-- ===== src/Pcp/Dispatch/Carried.antt =====
-- A broadcast that carries the message of a host.
use peercast_yt.Prelude.{
  ℕ, ◌+◌, ◌-◌, ◌≤◌, ◌<◌, ◌≡◌, refl, sym, ap, ap₂, ◌∙◌, subst, bytes_eq, if◌then◌else◌, false, none,
  some, List, [], ◌∷◌, ◌++◌, arith, All, length, map, take, append-nil, append_assoc, drop-append,
}
use peercast_yt.GnuId
use peercast_yt.GnuId.{GnuId}
use peercast_yt.Io.{Reader, ok, fail, not_modelled, ◌>>=◌, bind_result, write_int}
use peercast_yt.Atom.{Header, read_header, write_parent, with_top, top_bit}
use peercast_yt.Atom.Tree.{Tree, parent, encode, read_words, header-parent}
use peercast_yt.Packet.{max_datalen}
use peercast_yt.Hits.{Hit}
use peercast_yt.Hits.Atoms.{joined, write_hit, pcp_host}
use peercast_yt.Hits.Atoms.Leaves.{IsSized, HostTree, host_tree}
use peercast_yt.Pcp.Host.Whole.{Fits, received, read_host_atoms-write_hit}
use peercast_yt.Pcp.Broadcast.{BroadcastState, Loop, Outcome, pcp_bcst, start, read_broadcast_atoms}
use peercast_yt.Pcp.Broadcast.Fields.{
  Field, other, bytes, forward, IsField, size, apply, apply_all, Handles,
}
use peercast_yt.Pcp.Broadcast.Sent.{message, Good, Decided, broadcast_lem}
use mathlib.Core.Option
use peercast_yt.Pcp.Host.{Listing, has_list}
use peercast_yt.Pcp.Host.Lists.{AllDistinct, Taken, take_hit_lem}
use peercast_yt.Pcp.Dispatch.{Peer, with_lists, World, taken, proc_atom, read_atom, read_broadcast}
use peercast_yt.Pcp.Dispatch.Settings.{
  IsSetting, set_by, apply_all-settings, apply_all-append, setting-Handles, All-snoc, All-map,
  last_ttl-snoc, last_from-snoc, size-snoc, joined-snoc, forward-snoc, length-size, length-snoc,
  IsField-fuel,
}

take-whole : (xs : List ℕ) → take (length xs) xs ≡ xs
take-whole [] = refl
take-whole (x ∷ xs) = ap (λ r. x ∷ r) (take-whole xs)

-- The message of some settings and a hit.
abbrev pub carrying : List Field → Hit → GnuId → List ℕ
carrying pre c cid =
    write_parent pcp_bcst (length pre + 1) ++ (joined (map bytes pre) ++ write_hit c cid)

-- What the message of a hit does.
abbrev pub effect : GnuId → ℕ → Hit → GnuId → Tree → BroadcastState × World → BroadcastState × World
effect session now c cid t (b, w) = (b, taken session now (received c cid b.chan_id b.num_hops) w)

proc_atom-write_hit :
    (session : GnuId) (now fuel : ℕ) (c : Hit) (cid : GnuId) (b : BroadcastState) (w : World)
    → Fits c cid
    → (read_header >>= λ h. proc_atom session now fuel h b w) (write_hit c cid)
      ≡ (ok (b, taken session now (received c cid b.chan_id b.num_hops) w), [])
unfolding proc_atom
proc_atom-write_hit session now fuel c cid b w h =
    let e = read_host_atoms-write_hit fuel b.num_hops c cid b.chan_id [] h in
    ap (read_header >>= λ h. proc_atom session now fuel h b w) (sym (append-nil (write_hit c cid)))
    ∙ rw (e.0, e.1) refl

read_atom-write_hit :
    (session : GnuId) (now fuel : ℕ) (c : Hit) (cid : GnuId) (out : List ℕ) (b : BroadcastState)
    (w : World)
    → Fits c cid
    → read_atom session now fuel (out ++ write_hit c cid) (length out) b w ≡ record {
      result = ok (b, taken session now (received c cid b.chan_id b.num_hops) w);
      left = out ++ write_hit c cid;
    }
unfolding read_atom
read_atom-write_hit session now fuel c cid out b w h =
    rw
      (
        drop-append out (write_hit c cid),
        proc_atom-write_hit session now fuel c cid b w h,
        all_read (length (out ++ write_hit c cid)),
        take-whole (out ++ write_hit c cid),
      )
      refl
  where
    all_read : (n : ℕ) → n - 0 ≡ n
    all_read n = omega arith

sized : (c : Hit) (cid : GnuId) → Fits c cid → IsSized c cid
sized c cid h = record {
  session = h.session;
  channel = h.channel;
  rhost0 = h.ip0.0;
  rhost1 = h.ip1.0;
  uphost = h.uphost_ip.0;
  prefix = h.prefix;
}

-- The settings have their sizes, the hit fits its message, and the copy fits a packet.
pub record CanCarry (pre : List Field) (c : Hit) (cid : GnuId) : Type 0 where
  pub settings : All IsSetting pre
  pub fields : All (IsField 0) pre
  pub hit : Fits c cid
  pub room : 8 + size pre + length (write_hit c cid) ≤ max_datalen

-- What a broadcast comes to: behind its settings, the hit as it is received is put in the lists or taken
-- from them, and nothing else of the peer changes.
pub record Carried (session : GnuId) (now : ℕ) (pre : List Field) (c : Hit) (cid : GnuId)
    (s : Loop World) (w : World) (o : Outcome World) : Type 0 where
  pub world : (o.loop).world ≡ taken session now (received c cid (s.bcs).chan_id (s.bcs).num_hops) w
  pub bcs : (o.loop).bcs ≡ s.bcs
  pub routes : (o.loop).route_list ≡ s.route_list
  pub out : (o.loop).out ≡ carrying (map forward pre) c cid
  pub decided : Decided session pre s.bcs o

All-both : (P Q : Field → Type 0) (xs : List Field) → All P xs → All Q xs → All (λ x. P x × Q x) xs
All-both P Q [] h k = tt
All-both P Q (x ∷ xs) h k = ((h.0, k.0), All-both P Q xs h.1 k.1)

module _ (session : GnuId) (now fuel : ℕ) (pre : List Field) (c : Hit) (cid : GnuId)
    (can : CanCarry pre c cid) (enough : 20 ≤ fuel) where
  tree : HostTree c cid
  tree = host_tree c cid (sized c cid can.hit)

  whole : Tree
  whole = parent pcp_host tree.forest

  fs : List Field
  fs = pre ++ other whole ∷ []

  whole-Handles :
      Handles (effect session now c cid) session now (read_atom session now fuel) (other whole)
  unfolding whole tree
  whole-Handles out b w =
      let same = ap encode tree.same ∙ tree.bytes in
      ap (λ x. read_atom session now fuel (out ++ x) (length out) b w) same
      ∙ read_atom-write_hit session now fuel c cid out b w can.hit
      ∙ ap
          (λ x. record {
            result = ok (b, taken session now (received c cid b.chan_id b.num_hops) w);
            left = out ++ x;
          })
          (sym same)

  fs-Good : Good (read_atom session now fuel) (effect session now c cid) session now fuel fs
  unfolding fs whole tree
  fs-Good = record {
    fields =
        All-snoc (IsField fuel) pre (other whole)
          (All-map _ (IsField fuel) pre (IsField-fuel fuel)
            (All-both IsSetting (IsField 0) pre can.settings can.fields))
          (
            tree.good,
            (refl, refl, refl, refl, refl, refl, refl, refl, refl, refl),
            omega (arith, tree.few, enough),
          );
    handled =
        All-snoc _ pre (other whole)
          (All-map IsSetting _ pre
            (setting-Handles (effect session now c cid) session now (read_atom session now fuel))
            can.settings)
          whole-Handles;
    room = omega (
      arith,
      size-snoc pre (other whole),
      ap length (ap encode tree.same ∙ tree.bytes),
      can.room,
    );
  }

  bytes-fs : joined (map bytes fs) ≡ joined (map bytes pre) ++ write_hit c cid
  unfolding fs whole tree
  bytes-fs = joined-snoc pre (other whole) ∙ ap (λ x. joined (map bytes pre) ++ x) tree.bytes

  forward-fs : message (map forward fs) ≡ carrying (map forward pre) c cid
  unfolding fs whole tree
  forward-fs =
      ap message (forward-snoc pre whole tree.same)
      ∙ ap₂ (λ n x. write_parent pcp_bcst n ++ x) (length-snoc (map forward pre) (other whole))
          (joined-snoc (map forward pre) (other whole)
            ∙ ap (λ x. joined (map bytes (map forward pre)) ++ x) tree.bytes)

  small-fs : length fs < top_bit
  unfolding fs
  small-fs = omega (arith, length-snoc pre (other whole), length-size pre can.settings, can.room)

  read_broadcast-loop :
      (bcs : BroadcastState) (routes : List GnuId) (w : World) (t : List ℕ)
      → read_broadcast session now fuel bcs routes w (carrying pre c cid ++ t)
        ≡ read_broadcast_atoms
            (read_atom session now fuel)
            session
            now
            fuel
            (length fs)
            bcs
            routes
            w
            (joined (map bytes fs) ++ t)
  unfolding read_broadcast
  read_broadcast-loop bcs routes w t =
      ap (λ x. read_broadcast session now fuel bcs routes w (x ++ t))
        (ap₂ (λ n x. write_parent pcp_bcst n ++ x) (sym count) (sym bytes-fs))
      ∙ ap (λ r. bind_result r (λ h. read_broadcast_body h))
          (ap read_header (
              append_assoc (write_parent pcp_bcst (length fs)) (joined (map bytes fs)) t
              ∙ append_assoc pcp_bcst (write_int (with_top (length fs)))
                  (joined (map bytes fs) ++ t))
            ∙ read_words pcp_bcst (with_top (length fs)) (joined (map bytes fs) ++ t) refl
                (omega (arith, small-fs))
            ∙ ap (λ h. (ok h, joined (map bytes fs) ++ t))
                (header-parent pcp_bcst (length fs) small-fs))
    where
      count : length fs ≡ length pre + 1
      count = unfold fs in length-snoc pre (other whole)

      read_broadcast_body : Header → Reader (Outcome World)
      read_broadcast_body h =
          if bytes_eq h.id pcp_bcst
          then read_broadcast_atoms (read_atom session now fuel) session now fuel h.num_children bcs
              routes w
          else fail not_modelled

  Decided-snoc :
      (b : BroadcastState) (o : Outcome World) → Decided session fs b o → Decided session pre b o
  unfolding fs
  Decided-snoc b o d =
      rw (sym (last_ttl-snoc pre whole none), sym (last_from-snoc pre whole (GnuId.cleared).id)) d

  Carried-fs :
      (bcs : BroadcastState) (routes : List GnuId) (w : World) (o : Outcome World)
      → o.loop
        ≡ apply_all (effect session now c cid) session now fs (start (length fs) bcs routes w)
      → (o.loop).out ≡ message (map forward fs)
      → Decided session fs
          (apply_all (effect session now c cid) session now fs (start (length fs) bcs routes w)).bcs
          o
      → Carried session now pre c cid (set_by session now pre (length pre + 1) bcs routes w) w o
  unfolding fs
  Carried-fs bcs routes w o e out d =
      let eff = effect session now c cid in
      let begin = start (length fs) bcs routes w in
      let same = apply_all-settings eff session now pre begin can.settings in
      let last =
        apply_all-append eff session now pre (other whole ∷ []) begin
        ∙ ap (λ s. apply eff session now (other whole) s) same.0
        ∙ ap (λ n. apply eff session now (other whole) (set_by session now pre n bcs routes w))
            (length-snoc pre (other whole)) in
      let kept =
        (apply_all-settings eff session now pre (start (length pre + 1) bcs routes w)
          can.settings).1 in
      let s = set_by session now pre (length pre + 1) bcs routes w in
      record {
        world =
            ap (λ (l : Loop World). l.world) (e ∙ last)
            ∙ ap (taken session now (received c cid (s.bcs).chan_id (s.bcs).num_hops)) kept;
        bcs = ap (λ (l : Loop World). l.bcs) (e ∙ last);
        routes = ap (λ (l : Loop World). l.route_list) (e ∙ last);
        out = out ∙ forward-fs;
        decided =
            subst (λ b. Decided session pre b o) (ap (λ (l : Loop World). l.bcs) last)
              (Decided-snoc (apply_all eff session now fs begin).bcs o d);
      }

-- The same, whatever the lists of the peer are.
pub read_broadcast-carrying :
    (session : GnuId) (now fuel : ℕ) (pre : List Field) (c : Hit) (cid : GnuId)
    (bcs : BroadcastState) (routes : List GnuId) (w : World) (t : List ℕ)
    → CanCarry pre c cid
    → 20 ≤ fuel
    → (o : Outcome World) × (read_broadcast session now fuel bcs routes w (carrying pre c cid ++ t)
        ≡ (ok o, t))
      × Carried session now pre c cid (set_by session now pre (length pre + 1) bcs routes w) w o
read_broadcast-carrying session now fuel pre c cid bcs routes w t can enough =
    let (o, reads, loop, out, d) =
      broadcast_lem (read_atom session now fuel) (effect session now c cid) session now fuel
        (fs session now fuel pre c cid can enough) bcs routes w t
        (fs-Good session now fuel pre c cid can enough) in
    (
      o,
      read_broadcast-loop session now fuel pre c cid can enough bcs routes w t ∙ reads,
      Carried-fs session now fuel pre c cid can enough bcs routes w o loop out d,
    )

-- `readAtom` of a broadcast that holds any settings, and then the message of a hit: it is read in full,
-- whatever follows it. The hit, with the hops of the settings, and with their channel where it names none, is
-- added to the list of its channel, which is made if there is none, if it receives, or else deleted from it if
-- there is one, and no other list changes. The packet
-- that is made is the message with its time to live one lower and its hops one higher, and all else as it
-- was. It is answered as a loop, and not sent, if its last sender is this peer; else it is sent on to the targets
-- of its group exactly if it is not for this peer and its time to live, less one, is above 0. This is for
-- settings and a hit that fit their atoms, a copy that fits a packet, lists whose nodes are distinct, and a hit
-- that is not of this peer's own session.
pub read_broadcast-Taken :
    (session : GnuId) (now fuel : ℕ) (pre : List Field) (c : Hit) (cid : GnuId)
    (bcs : BroadcastState) (routes : List GnuId) (p : Peer) (t : List ℕ)
    → CanCarry pre c cid
    → 20 ≤ fuel
    → AllDistinct p.lists
    → GnuId.is_same session c.session_id ≡ false
    → let s = set_by session now pre (length pre + 1) bcs routes (some p) in
      let h = received c cid (s.bcs).chan_id (s.bcs).num_hops in
      (o : Outcome World) × (read_broadcast session now fuel bcs routes
          (some p)
          (carrying pre c cid ++ t)
        ≡ (ok o, t))
      × Carried session now pre c cid s (some p) o
      × ((ls : List Listing) × ((o.loop).world ≡ some (with_lists p ls))
          × Taken now p.fresh h p.lists h.recv (has_list h.chan_id p.lists) ls)
read_broadcast-Taken session now fuel pre c cid bcs routes p t can enough d own =
    let s = set_by session now pre (length pre + 1) bcs routes (some p) in
    let h = received c cid (s.bcs).chan_id (s.bcs).num_hops in
    let (o, reads, k) =
      read_broadcast-carrying session now fuel pre c cid bcs routes (some p) t can enough in
    let (ls, e, taken_by) = take_hit_lem session now p.fresh h p.lists d own in
    (o, reads, k, (ls, k.world ∙ ap (Option.map (with_lists p)) e, taken_by))
