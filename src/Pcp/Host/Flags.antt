-- ===== src/Pcp/Host/Flags.antt =====
-- The flags of a host, packed into a byte and taken apart again.
use peercast_yt.Prelude.{
  ℕ, ◌<◌, ◌≡◌, refl, sym, ap, subst, ◌∙◌, Bool, true, false, ◌&&◌, ltb, ltb→lt, if◌then◌else◌,
  bit_or, arith,
}
use peercast_yt.Hits.{Hit, flags1, same_bool}
use peercast_yt.Pcp.Host.{has_flag, set_flags}

-- A test at both truth values.
both : (Bool → Bool) → Bool
both p = p true && p false

both_lem : (p : Bool → Bool) (b : Bool) → both p ≡ true → p b ≡ true
unfolding both
both_lem p true h = ground arith
both_lem p false h = ground arith

pack : Bool → Bool → Bool → Bool → Bool → Bool → ℕ
pack r l d c t f =
    bit_or
      (bit_or
        (bit_or
          (bit_or (bit_or (if r then 0x10 else 0) (if l then 0x02 else 0)) (if d then 0x04 else 0))
          (if c then 0x20 else 0))
        (if t then 0x01 else 0))
      (if f then 0x08 else 0)

test : Bool → Bool → Bool → Bool → Bool → Bool → Bool
unfolding pack
test r l d c t f =
    let v = pack r l d c t f in
    ltb v 256
    && (same_bool (has_flag v 0x10) r
        && (same_bool (has_flag v 0x02) l
            && (same_bool (has_flag v 0x04) d
                && (same_bool (has_flag v 0x20) c
                    && (same_bool (has_flag v 0x01) t && same_bool (has_flag v 0x08) f)))))

table :
    both (λ r. both (λ l. both (λ d. both (λ c. both (λ t. both (λ f. test r l d c t f)))))) ≡ true
unfolding both test
table = refl

test_lem : (r l d c t f : Bool) → test r l d c t f ≡ true
test_lem r l d c t f =
    both_lem _ f (both_lem _ t (both_lem _ c (both_lem _ d (both_lem _ l (both_lem _ r table)))))

same_bool→eq : (a b : Bool) → same_bool a b ≡ true → a ≡ b
same_bool→eq true true h = refl
same_bool→eq true false h = cc
same_bool→eq false true h = cc
same_bool→eq false false h = refl

-- What the test says, as equations.
record Agree (v : ℕ) (r l d c t f : Bool) : Type 0 where
  small : v < 256
  recv : has_flag v 0x10 ≡ r
  relay : has_flag v 0x02 ≡ l
  direct : has_flag v 0x04 ≡ d
  cin : has_flag v 0x20 ≡ c
  tracker : has_flag v 0x01 ≡ t
  firewalled : has_flag v 0x08 ≡ f

and→both : (a b : Bool) → (a && b) ≡ true → (a ≡ true) × (b ≡ true)
and→both true b h = (refl, h)
and→both false b h = cc

agree : (r l d c t f : Bool) → Agree (pack r l d c t f) r l d c t f
unfolding test
agree r l d c t f =
    let v = pack r l d c t f in
    let (s, h1) = and→both (ltb v 256) _ (test_lem r l d c t f) in
    let (e1, h2) = and→both (same_bool (has_flag v 0x10) r) _ h1 in
    let (e2, h3) = and→both (same_bool (has_flag v 0x02) l) _ h2 in
    let (e3, h4) = and→both (same_bool (has_flag v 0x04) d) _ h3 in
    let (e4, h5) = and→both (same_bool (has_flag v 0x20) c) _ h4 in
    let (e5, e6) = and→both (same_bool (has_flag v 0x01) t) _ h5 in
    record {
      small = ltb→lt v 256 s;
      recv = same_bool→eq (has_flag v 0x10) r e1;
      relay = same_bool→eq (has_flag v 0x02) l e2;
      direct = same_bool→eq (has_flag v 0x04) d e3;
      cin = same_bool→eq (has_flag v 0x20) c e4;
      tracker = same_bool→eq (has_flag v 0x01) t e5;
      firewalled = same_bool→eq (has_flag v 0x08) f e6;
    }

flags1-pack : (c : Hit) → flags1 c ≡ pack c.recv c.relay c.direct c.cin c.tracker c.firewalled
unfolding flags1 pack
flags1-pack c = refl

pub flags-small : (c : Hit) → flags1 c < 256
flags-small c =
    subst (λ v. v < 256) (sym (flags1-pack c))
      (agree c.recv c.relay c.direct c.cin c.tracker c.firewalled).small

-- The same flags, whatever the hit is whose flags are set.
pub set_flags-flags1 :
    (c d : Hit)
    → set_flags (flags1 c) d ≡ record d {
      recv = c.recv;
      relay = c.relay;
      direct = c.direct;
      cin = c.cin;
      tracker = c.tracker;
      firewalled = c.firewalled;
    }
unfolding set_flags
set_flags-flags1 c d =
    let a = agree c.recv c.relay c.direct c.cin c.tracker c.firewalled in
    ap (λ v. set_flags v d) (flags1-pack c)
    ∙ rw (a.recv, a.relay, a.direct, a.cin, a.tracker, a.firewalled, set_flags) refl
