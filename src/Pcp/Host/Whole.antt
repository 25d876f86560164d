-- ===== src/Pcp/Host/Whole.antt =====
-- The whole message of a host, written and read.
use peercast_yt.Prelude.{
  ℕ, ◌<◌, ◌≡◌, refl, sym, ap, ◌∙◌, Bool, true, false, List, [], ◌∷◌, ◌++◌, ◌==◌, if◌then◌else◌,
  arith, All, IsByte, length, append_assoc,
}
use peercast_yt.Address.{no_host, is_set}
use peercast_yt.GnuId
use peercast_yt.GnuId.{GnuId, cleared}
use peercast_yt.Io.{ok, bind_result, pure, write_int}
use peercast_yt.Atom.{write_bytes, write_char_atom, write_parent, with_top, read_header}
use peercast_yt.Atom.Tree.{read_words, header-parent}
use peercast_yt.Hits.{Hit, new_hit, flags1}
use peercast_yt.Hits.Atoms.{
  joined, when, num_children_of, first_atoms, ex_atoms, last_atoms, uphost_atoms, children_of,
  pcp_host, write_hit, pcp_host_chanid, pcp_host_flags1,
}
use peercast_yt.Hits.Atoms.Leaves.{length-children_of}
use peercast_yt.Pcp.Host.{Seen, set_ip, set_port, read_host_atom, read_host_loop, read_host_atoms}
use peercast_yt.Pcp.Steps.{Reads, Writes, Writes-nil, Writes-cons, Writes-append, rounds-length}
use peercast_yt.Pcp.Host.Flags.{flags-small, set_flags-flags1}
use peercast_yt.Pcp.Host.Round.{
  on_hit, numl-Reads, numr-Reads, uptime-Reads, version-Reads, version_vp-Reads, oldpos-Reads,
  newpos-Reads, uphost_hops-Reads, uphost_port-Reads, ex_number-Reads, port-Reads, flags-Reads,
  session-Reads, chan-Reads, ex_prefix-Reads, ip-Reads, uphost_ip-Reads,
}

-- The fields fit the atoms: addresses and identifiers of 16 bytes, a prefix of 2, ports of 16 bits, the
-- version number of 15, which is read as a `short`, the other numbers of 32.
pub record Fits (c : Hit) (chan : GnuId) : Type 0 where
  pub session : length c.session_id.id ≡ 16
  pub channel : length chan.id ≡ 16
  pub ip0 : (length c.rhost0.ip ≡ 16) × All IsByte c.rhost0.ip
  pub ip1 : (length c.rhost1.ip ≡ 16) × All IsByte c.rhost1.ip
  pub uphost_ip : (length c.uphost.ip ≡ 16) × All IsByte c.uphost.ip
  pub prefix : length c.version_ex_prefix ≡ 2
  pub port0 : c.rhost0.port < 65536
  pub port1 : c.rhost1.port < 65536
  pub ex_number : c.version_ex_number < 32768
  pub listeners : c.num_listeners < 4294967296
  pub relays : c.num_relays < 4294967296
  pub up_time : c.up_time < 4294967296
  pub version : c.version < 4294967296
  pub version_vp : c.version_vp < 4294967296
  pub oldest : c.oldest_pos < 4294967296
  pub newest : c.newest_pos < 4294967296
  pub uphost_port : c.uphost.port < 65536
  pub uphost_hops : c.uphost_hops < 4294967296

-- What the rounds make of the loop's variables.
abbrev first_seen : Hit → Seen → Seen
first_seen c s =
    on_hit (λ d. record d { version_vp = c.version_vp })
      (on_hit (λ d. record d { version = c.version })
        (on_hit (λ d. record d { up_time = c.up_time })
          (on_hit (λ d. record d { num_relays = c.num_relays })
            (on_hit (λ d. record d { num_listeners = c.num_listeners })
              (set_port c.rhost1.port (
                set_ip c.rhost1.ip (
                  set_port c.rhost0.port (
                    set_ip c.rhost0.ip (
                      on_hit
                        (λ d. record d {
                          session_id = record (d.session_id) { id = c.session_id.id };
                        })
                        s)))))))))

abbrev ex_seen : Hit → Seen → Seen
ex_seen c s =
    on_hit (λ d. record d { version_ex_number = c.version_ex_number })
      (on_hit (λ d. record d { version_ex_prefix = c.version_ex_prefix }) s)

abbrev flags_of : Hit → Hit → Hit
flags_of c d = record d {
  recv = c.recv;
  relay = c.relay;
  direct = c.direct;
  cin = c.cin;
  tracker = c.tracker;
  firewalled = c.firewalled;
}

abbrev last_seen : Hit → Seen → Seen
last_seen c s =
    on_hit (λ d. record d { newest_pos = c.newest_pos })
      (on_hit (λ d. record d { oldest_pos = c.oldest_pos }) (on_hit (flags_of c) s))

abbrev uphost_seen : Hit → Seen → Seen
uphost_seen c s =
    on_hit (λ d. record d { uphost_hops = c.uphost_hops })
      (on_hit (λ d. record d { uphost = record (d.uphost) { port = c.uphost.port } })
        (on_hit (λ d. record d { uphost = record (d.uphost) { ip = c.uphost.ip } }) s))

abbrev chan_seen : GnuId → Seen → Seen
chan_seen chan s = record s { chan = record (s.chan) { id = chan.id } }

Writes-when :
    (b : Bool) (ws : List (List ℕ)) (f : Seen → Seen)
    → Writes read_host_atom ws f
    → Writes read_host_atom (when b ws) (λ s. if b then f s else s)
Writes-when true ws f h = h
Writes-when false ws f h = (Writes-nil read_host_atom)

Writes-unless :
    (b : Bool) (ws : List (List ℕ)) (f : Seen → Seen)
    → Writes read_host_atom ws f
    → Writes read_host_atom (if b then [] else ws) (λ s. if b then s else f s)
Writes-unless true ws f h = (Writes-nil read_host_atom)
Writes-unless false ws f h = h

flags_of-Reads :
    (c : Hit)
    → Reads read_host_atom (write_char_atom pcp_host_flags1 (flags1 c)) (on_hit (flags_of c))
unfolding Reads
flags_of-Reads c fuel s t =
    flags-Reads (flags1 c) (flags-small c) fuel s t
    ∙ ap (λ d. (ok (record s { hit = d }), t)) (set_flags-flags1 c s.hit)

children_seen : Bool → Bool → Bool → Hit → GnuId → Seen → Seen
children_seen with_chan plain with_uphost c chan s =
    let s1 = if with_chan then chan_seen chan s else s in
    let s2 = first_seen c s1 in
    let s3 = if plain then s2 else ex_seen c s2 in
    let s4 = last_seen c s3 in if with_uphost then uphost_seen c s4 else s4

module _ (c : Hit) (chan : GnuId) (h : Fits c chan) where
  first-Writes : Writes read_host_atom (first_atoms c) (first_seen c)
  unfolding first_atoms
  first-Writes = Writes-cons read_host_atom _ _ _ _ (session-Reads c.session_id.id h.session) (
      Writes-cons read_host_atom _ _ _ _ (ip-Reads c.rhost0.ip (h.ip0.0) (h.ip0.1)) (
        Writes-cons read_host_atom _ _ _ _ (port-Reads c.rhost0.port h.port0) (
          Writes-cons read_host_atom _ _ _ _ (ip-Reads c.rhost1.ip (h.ip1.0) (h.ip1.1)) (
            Writes-cons read_host_atom _ _ _ _ (port-Reads c.rhost1.port h.port1) (
              Writes-cons read_host_atom _ _ _ _ (numl-Reads c.num_listeners h.listeners) (
                Writes-cons read_host_atom _ _ _ _ (numr-Reads c.num_relays h.relays) (
                  Writes-cons read_host_atom _ _ _ _ (uptime-Reads c.up_time h.up_time) (
                    Writes-cons read_host_atom _ _ _ _ (version-Reads c.version h.version) (
                      Writes-cons read_host_atom _ _ _ _
                        (version_vp-Reads c.version_vp h.version_vp)
                        (Writes-nil read_host_atom))))))))))

  ex-Writes : Writes read_host_atom (ex_atoms c) (ex_seen c)
  ex-Writes = Writes-cons read_host_atom _ _ _ _ (ex_prefix-Reads c.version_ex_prefix h.prefix) (
      Writes-cons read_host_atom _ _ _ _ (ex_number-Reads c.version_ex_number h.ex_number)
        (Writes-nil read_host_atom))

  last-Writes : Writes read_host_atom (last_atoms c) (last_seen c)
  unfolding last_atoms
  last-Writes = Writes-cons read_host_atom _ _ _ _ (flags_of-Reads c) (
      Writes-cons read_host_atom _ _ _ _ (oldpos-Reads c.oldest_pos h.oldest) (
        Writes-cons read_host_atom _ _ _ _ (newpos-Reads c.newest_pos h.newest)
          (Writes-nil read_host_atom)))

  uphost-Writes : Writes read_host_atom (uphost_atoms c) (uphost_seen c)
  unfolding uphost_atoms
  uphost-Writes =
      Writes-cons read_host_atom _ _ _ _
        (uphost_ip-Reads c.uphost.ip (h.uphost_ip.0) (h.uphost_ip.1))
        (Writes-cons read_host_atom _ _ _ _ (uphost_port-Reads c.uphost.port h.uphost_port) (
          Writes-cons read_host_atom _ _ _ _ (uphost_hops-Reads c.uphost_hops h.uphost_hops)
            (Writes-nil read_host_atom)))

  chan-Writes : Writes read_host_atom (write_bytes pcp_host_chanid chan.id ∷ []) (chan_seen chan)
  chan-Writes =
      Writes-cons read_host_atom _ _ _ _ (chan-Reads chan.id h.channel) (Writes-nil read_host_atom)

  children-Writes :
      Writes read_host_atom
        (children_of c chan)
        (children_seen (GnuId.is_set chan) (c.version_ex_number == 0) (is_set c.uphost.ip) c chan)
  unfolding children_seen
  children-Writes =
      Writes-append read_host_atom _ _ _ _
        (Writes-when (GnuId.is_set chan) (write_bytes pcp_host_chanid chan.id ∷ []) (chan_seen chan)
          chan-Writes)
        (Writes-append read_host_atom _ _ _ _ first-Writes (
          Writes-append read_host_atom _ _ _ _
            (Writes-unless (c.version_ex_number == 0) (ex_atoms c) (ex_seen c) ex-Writes)
            (Writes-append read_host_atom _ _ _ _ last-Writes
              (Writes-when (is_set c.uphost.ip) (uphost_atoms c) (uphost_seen c) uphost-Writes))))

-- The hit that arrives, by what the message holds.
abbrev arrived : Bool → Bool → Bool → Hit → GnuId → GnuId → ℕ → Hit
arrived with_chan plain with_uphost c chan dflt hops = record c {
  host = c.rhost0;
  num_hops = hops;
  time = 0;
  last_contact = 0;
  session_id = record { id = c.session_id.id; store_time = 0 };
  chan_id = if with_chan then record dflt { id = chan.id } else dflt;
  stable = false;
  yp = false;
  dead = false;
  version_ex_prefix = if plain then 32 ∷ 32 ∷ [] else c.version_ex_prefix;
  version_ex_number = if plain then 0 else c.version_ex_number;
  uphost = if with_uphost then c.uphost else no_host;
  uphost_hops = if with_uphost then c.uphost_hops else 0;
}

-- What is not sent has its first value, and the channel is the one of the message, or else that of the
-- broadcast, `dflt`.
abbrev pub received : Hit → GnuId → GnuId → ℕ → Hit
received c chan dflt hops =
    arrived (GnuId.is_set chan) (c.version_ex_number == 0) (is_set c.uphost.ip) c chan dflt hops

start : GnuId → Seen
start dflt = record { hit = new_hit; chan = dflt; ip_num = 0 }

finish : ℕ → Seen → Hit
finish hops s = record (s.hit) { host = (s.hit).rhost0; chan_id = s.chan; num_hops = hops }

finish-children :
    (a b d : Bool) (c : Hit) (chan dflt : GnuId) (hops : ℕ)
    → finish hops (children_seen a b d c chan (start dflt)) ≡ arrived a b d c chan dflt hops
unfolding finish children_seen start
finish-children true true true c chan dflt hops = refl
finish-children true true false c chan dflt hops = refl
finish-children true false true c chan dflt hops = refl
finish-children true false false c chan dflt hops = refl
finish-children false true true c chan dflt hops = refl
finish-children false true false c chan dflt hops = refl
finish-children false false true c chan dflt hops = refl
finish-children false false false c chan dflt hops = refl

pub read_host_atoms-children_of :
    (fuel hops : ℕ) (c : Hit) (chan dflt : GnuId) (t : List ℕ)
    → Fits c chan
    → read_host_atoms fuel (num_children_of c chan) dflt hops (joined (children_of c chan) ++ t)
      ≡ (ok (received c chan dflt hops), t)
unfolding read_host_atoms finish Writes read_host_loop start
read_host_atoms-children_of fuel hops c chan dflt t h =
    ap (λ n. read_host_atoms fuel n dflt hops (joined (children_of c chan) ++ t))
      (sym (rounds-length (children_of c chan) ∙ length-children_of c chan))
    ∙ ap (λ r. bind_result r (λ s. pure (finish hops s)))
        (children-Writes c chan h fuel 0 (start dflt) t)
    ∙ ap (λ x. (ok x, t))
        (finish-children (GnuId.is_set chan) (c.version_ex_number == 0) (is_set c.uphost.ip) c chan
          dflt hops)

few_children : (c : Hit) (chan : GnuId) → num_children_of c chan < 20
few_children c chan = ground arith

-- The message that `ChanHit::writeAtoms` writes is read in full by `AtomStream::read` and
-- `readHostAtoms`, whatever follows it in the stream: the hit that arrives has the fields of the one that
-- was sent, but for those that are not sent, which have their first values; its channel is that of the
-- message, or else that of the broadcast, its hops are those of the broadcast.
-- This is for a hit whose fields fit their atoms: its identifiers and addresses have 16 bytes, the prefix
-- of its version 2, its numbers as many bits as are written, and the number of its version, which is read as
-- a `short`, 15.
pub read_host_atoms-write_hit :
    (fuel hops : ℕ) (c : Hit) (chan dflt : GnuId) (t : List ℕ)
    → Fits c chan
    → (read_header (write_hit c chan ++ t) ≡ (
      ok (record { id = pcp_host; num_children = num_children_of c chan; num_data = 0 }),
      joined (children_of c chan) ++ t,
    ))
      × (read_host_atoms fuel (num_children_of c chan) dflt hops (joined (children_of c chan) ++ t)
          ≡ (ok (received c chan dflt hops), t))
unfolding write_hit
read_host_atoms-write_hit fuel hops c chan dflt t h = (
  ap read_header (
        append_assoc (write_parent pcp_host n) body t
        ∙ append_assoc pcp_host (write_int (with_top n)) (body ++ t))
      ∙ read_words pcp_host (with_top n) (body ++ t) refl (omega arith)
      ∙ ap (λ k. (ok k, body ++ t)) (header-parent pcp_host n (omega (arith, few_children c chan))),
  read_host_atoms-children_of fuel hops c chan dflt t h,
)
  where
    n : ℕ
    n = num_children_of c chan

    body : List ℕ
    body = joined (children_of c chan)
