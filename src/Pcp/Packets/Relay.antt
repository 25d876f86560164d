-- ===== src/Pcp/Packets/Relay.antt =====
-- A packet that one peer sends is what the next one puts in the buffer of its channel.
use peercast_yt.Prelude.{
  ℕ, ◌≤◌, ◌<◌, ◌≡◌, ◌⊎◌, refl, sym, ap, ◌∙◌, inl, inr, Bool, true, false, List, [], ◌∷◌, ◌++◌, ◌==◌,
  ltb, if◌then◌else◌, arith, length, drop, take-append, length-take, length-append, subst,
}
use peercast_yt.Io.{ok, pure, bind_result, read_id4, write_int, write_char}
use peercast_yt.Io.Words.{read-append}
use peercast_yt.Atom.{write_bytes, write_id4_atom, write_int_atom, write_char_atom}
use peercast_yt.Packet.{Packet, Content, view, IsWhole, payload, t_head, t_data, max_datalen}
use peercast_yt.Hits.Atoms.{joined}
use peercast_yt.Pcp.Steps.{
  Reads, Writes, Reads-write_bytes, Writes-nil, Writes-cons, each_atom-Writes, read_int-leaf,
  read_bytes-leaf,
}
use peercast_yt.Pcp.Packets.{
  pcp_chan_pkt_type, pcp_chan_pkt_pos, pcp_chan_pkt_data, pcp_chan_pkt_head,
  pcp_chan_pkt_continuation, pkt_atoms, cont_atoms, kind_of, read_pkt_atom, read_pkt_atoms,
  pkt_parts,
}

type-Reads :
    (a b c d : ℕ)
    → Reads read_pkt_atom
        (write_id4_atom pcp_chan_pkt_type (a ∷ b ∷ c ∷ d ∷ []))
        (λ p. record p { kind = kind_of (a ∷ b ∷ c ∷ d ∷ []) })
unfolding read_pkt_atom read_id4
type-Reads a b c d =
    Reads-write_bytes read_pkt_atom pcp_chan_pkt_type (a ∷ b ∷ c ∷ d ∷ []) refl (omega arith) _
      (λ fuel p t.
        ap (λ r. bind_result r (λ v. pure (record p { kind = kind_of v })))
          (read-append (a ∷ b ∷ c ∷ d ∷ []) t))

pos-Reads :
    (v : ℕ)
    → v < 4294967296
    → Reads read_pkt_atom (write_int_atom pcp_chan_pkt_pos v) (λ p. record p { pos = v })
unfolding read_pkt_atom
pos-Reads v small =
    Reads-write_bytes read_pkt_atom pcp_chan_pkt_pos (write_int v) refl (omega arith) _ (λ fuel p t.
      ap (λ r. bind_result r (λ v. pure (record p { pos = v })))
        (read_int-leaf pcp_chan_pkt_pos v t small))

cont-Reads :
    Reads read_pkt_atom
      (write_char_atom pcp_chan_pkt_continuation 1)
      (λ p. record p { cont = true })
unfolding read_pkt_atom
cont-Reads =
    Reads-write_bytes read_pkt_atom pcp_chan_pkt_continuation (write_char 1) refl (omega arith) _
      (λ fuel p t. refl)

data-Reads :
    (b : List ℕ)
    → length b ≤ max_datalen
    → Reads read_pkt_atom
        (write_bytes pcp_chan_pkt_data b)
        (λ p. record p { len = length b; bytes = b ++ drop (length b) p.bytes })
unfolding read_pkt_atom
data-Reads b small =
    Reads-write_bytes read_pkt_atom pcp_chan_pkt_data b refl (omega (arith, small)) _ (λ fuel p t.
      rw
        (
          fits (length b) small,
          read_bytes-leaf pcp_chan_pkt_data b (length b) t refl,
          read_pkt_atom,
        )
        refl)
  where
    fits : (n : ℕ) → n ≤ max_datalen → ltb max_datalen n ≡ false
    fits n h = ground arith

-- The packet as it arrives in `old`, whose data array keeps what was behind the payload.
abbrev arrived : ℕ → Bool → Packet → Packet → Packet
arrived kind cont p old = record old {
  kind = kind;
  len = length (payload p);
  pos = p.pos;
  cont = cont;
  bytes = payload p ++ drop (length (payload p)) old.bytes;
}

-- A packet that is sent: a head or data, whole, of at most the size of the array, at a 32-bit position.
pub record Sent (p : Packet) : Type 0 where
  pub kind : (p.kind ≡ t_head) ⊎ (p.kind ≡ t_data)
  pub whole : IsWhole p
  pub size : p.len ≤ max_datalen
  pub pos : p.pos < 4294967296

length-payload : (p : Packet) → IsWhole p → length (payload p) ≡ p.len
length-payload p h = omega (arith, h, length-take p.len p.bytes)

module _ (p : Packet) (s : Sent p) where
  small : length (payload p) ≤ max_datalen
  small = omega (arith, length-payload p s.whole, s.size)

  head-Writes :
      Writes read_pkt_atom (pkt_atoms pcp_chan_pkt_head p) (λ old. arrived t_head old.cont p old)
  head-Writes = Writes-cons read_pkt_atom _ _ _ _ (type-Reads b'h' b'e' b'a' b'd') (
      Writes-cons read_pkt_atom _ _ _ _ (pos-Reads p.pos s.pos) (
        Writes-cons read_pkt_atom _ _ _ _ (data-Reads (payload p) small)
          (Writes-nil read_pkt_atom)))

  plain-Writes :
      Writes read_pkt_atom (pkt_atoms pcp_chan_pkt_data p) (λ old. arrived t_data old.cont p old)
  plain-Writes = Writes-cons read_pkt_atom _ _ _ _ (type-Reads b'd' b'a' b't' b'a') (
      Writes-cons read_pkt_atom _ _ _ _ (pos-Reads p.pos s.pos) (
        Writes-cons read_pkt_atom _ _ _ _ (data-Reads (payload p) small)
          (Writes-nil read_pkt_atom)))

  cont-Writes : Writes read_pkt_atom (cont_atoms p) (λ old. arrived t_data true p old)
  cont-Writes = Writes-cons read_pkt_atom _ _ _ _ (type-Reads b'd' b'a' b't' b'a') (
      Writes-cons read_pkt_atom _ _ _ _ (pos-Reads p.pos s.pos) (
        Writes-cons read_pkt_atom _ _ _ _ cont-Reads (
          Writes-cons read_pkt_atom _ _ _ _ (data-Reads (payload p) small)
            (Writes-nil read_pkt_atom))))

-- What the next peer sees of a packet: all but its number, and of a head no continuation.
abbrev pub relayed : Packet → Content
relayed p = record (view p) { sync = 0; cont = if p.kind == t_head then false else p.cont }

arrived-IsWhole : (kind : ℕ) (cont : Bool) (p old : Packet) → IsWhole (arrived kind cont p old)
arrived-IsWhole kind cont p old =
    omega (arith, length-append (payload p) (drop (length (payload p)) old.bytes))

payload-arrived :
    (kind : ℕ) (cont : Bool) (p old : Packet) → payload (arrived kind cont p old) ≡ payload p
payload-arrived kind cont p old = take-append (payload p) (drop (length (payload p)) old.bytes)

arrived-view :
    (kind : ℕ) (cont : Bool) (p old : Packet)
    → IsWhole p
    → old.sync ≡ 0
    → view (arrived kind cont p old) ≡ record (view p) { kind = kind; sync = 0; cont = cont }
arrived-view kind cont p old h z =
    rw (payload-arrived kind cont p old, z)
      (ap (λ n. record (view p) { kind = kind; len = n; sync = 0; cont = cont })
        (length-payload p h))

-- The reading of some parts gives a packet with that content.
unfoldable pub Gives : ℕ → Packet → List ℕ → ℕ × List (List ℕ) → Content → Type 0
Gives fuel old t parts c =
    (q : Packet) × (read_pkt_atoms fuel parts.0 old (joined parts.1 ++ t) ≡ (ok q, t))
    × (view q ≡ c)
    × IsWhole q

head_kind : (p : Packet) → p.kind ≡ t_head → (p.kind == t_head) ≡ true
head_kind p e = ground arith

data_kind : (p : Packet) → p.kind ≡ t_data → (p.kind == t_head) ≡ false
data_kind p e = ground arith

module _ (p : Packet) (s : Sent p) (old : Packet) (fuel : ℕ) (t : List ℕ) (z : old.sync ≡ 0)
    (o : old.cont ≡ false) where
  head-Gives :
      Gives fuel old t
        (3, pkt_atoms pcp_chan_pkt_head p)
        (record (view p) { kind = t_head; sync = 0; cont = false })
  unfolding Gives read_pkt_atoms
  head-Gives = (
    arrived t_head old.cont p old,
    each_atom-Writes read_pkt_atom (pkt_atoms pcp_chan_pkt_head p) _ fuel old t (head-Writes p s),
    arrived-view t_head old.cont p old s.whole z
        ∙ ap (λ b. record (view p) { kind = t_head; sync = 0; cont = b }) o,
    arrived-IsWhole t_head old.cont p old,
  )

  plain-Gives :
      Gives fuel old t
        (3, pkt_atoms pcp_chan_pkt_data p)
        (record (view p) { kind = t_data; sync = 0; cont = false })
  unfolding Gives read_pkt_atoms
  plain-Gives = (
    arrived t_data old.cont p old,
    each_atom-Writes read_pkt_atom (pkt_atoms pcp_chan_pkt_data p) _ fuel old t (plain-Writes p s),
    arrived-view t_data old.cont p old s.whole z
        ∙ ap (λ b. record (view p) { kind = t_data; sync = 0; cont = b }) o,
    arrived-IsWhole t_data old.cont p old,
  )

  cont-Gives :
      Gives fuel old t (4, cont_atoms p) (record (view p) { kind = t_data; sync = 0; cont = true })
  unfolding Gives read_pkt_atoms
  cont-Gives = (
    arrived t_data true p old,
    each_atom-Writes read_pkt_atom (cont_atoms p) _ fuel old t (cont-Writes p s),
    arrived-view t_data true p old s.whole z,
    arrived-IsWhole t_data true p old,
  )

  data-Gives :
      (b : Bool)
      → Gives fuel old t
          (if b then (4, cont_atoms p) else (3, pkt_atoms pcp_chan_pkt_data p))
          (record (view p) { kind = t_data; sync = 0; cont = b })
  data-Gives true = cont-Gives
  data-Gives false = plain-Gives

  pub parts_lem : Gives fuel old t (pkt_parts p) (relayed p)
  unfolding pkt_parts
  parts_lem = elim s.kind [
    | inl e ↦
        subst (λ c. Gives fuel old t (pkt_parts p) c)
          (ap (λ k. record (view p) { kind = k; sync = 0; cont = false }) (sym e)
            ∙ ap (λ b. record (view p) { sync = 0; cont = if b then false else p.cont })
                (sym (head_kind p e)))
          (subst
            (λ b.
              Gives fuel old t
                (if b
                  then (3, pkt_atoms pcp_chan_pkt_head p)
                  else if p.cont
                  then (4, cont_atoms p)
                  else (3, pkt_atoms pcp_chan_pkt_data p))
                (record (view p) { kind = t_head; sync = 0; cont = false }))
            (sym (head_kind p e)) head-Gives)
    | inr e ↦
        subst (λ c. Gives fuel old t (pkt_parts p) c)
          (ap (λ k. record (view p) { kind = k; sync = 0; cont = p.cont }) (sym e)
            ∙ ap (λ b. record (view p) { sync = 0; cont = if b then false else p.cont })
                (sym (data_kind p e)))
          (subst
            (λ b.
              Gives fuel old t
                (if b
                  then (3, pkt_atoms pcp_chan_pkt_head p)
                  else if p.cont
                  then (4, cont_atoms p)
                  else (3, pkt_atoms pcp_chan_pkt_data p))
                (record (view p) { kind = t_data; sync = 0; cont = p.cont }))
            (sym (data_kind p e)) (data-Gives p.cont))
  ]
