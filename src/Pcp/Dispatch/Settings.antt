-- ===== src/Pcp/Dispatch/Settings.antt =====
-- The settings of a broadcast, in front of another field.
use peercast_yt.Prelude.{
  ℕ, ◌+◌, ◌≤◌, ◌≡◌, refl, sym, ap, ◌∙◌, Option, List, [], ◌∷◌, ◌++◌, arith, All, length, map,
  append-nil, append_assoc, length-append,
}
use peercast_yt.GnuId.{GnuId}
use peercast_yt.Atom.Tree.{Tree, settled}
use peercast_yt.Hits.Atoms.{joined}
use peercast_yt.Pcp.Broadcast.{BroadcastState, Loop, start}
use peercast_yt.Pcp.Broadcast.Fields.{
  Field, ttl, hops, group, version, version_vp, ex_number, from, dest, chan, ex_prefix, other,
  bytes, forward, IsField, size, apply, apply_all, Handles,
}
use peercast_yt.Pcp.Broadcast.Sent.{last_ttl, last_from, ttl_field, from_field}
use peercast_yt.Pcp.Dispatch.{World}

-- A field that is a setting of the broadcast.
abbrev pub IsSetting : Field → Type 0
IsSetting (ttl v) = Unit
IsSetting (hops v) = Unit
IsSetting (group v) = Unit
IsSetting (version v) = Unit
IsSetting (version_vp v) = Unit
IsSetting (ex_number v) = Unit
IsSetting (from v) = Unit
IsSetting (dest v) = Unit
IsSetting (chan v) = Unit
IsSetting (ex_prefix v) = Unit
IsSetting (other t) = ⊥

-- The variables of the loop behind the settings.
abbrev pub idle : Tree → BroadcastState × World → BroadcastState × World
idle t p = p

abbrev pub set_by : GnuId → ℕ → List Field → ℕ → BroadcastState → List GnuId → World → Loop World
set_by session now pre n bcs routes w = apply_all idle session now pre (start n bcs routes w)

module _ (eff : Tree → BroadcastState × World → BroadcastState × World) (session : GnuId)
    (now : ℕ) where
  pub apply-setting :
      (f : Field) (s : Loop World)
      → IsSetting f
      → (apply eff session now f s ≡ apply idle session now f s)
        × ((apply idle session now f s).world ≡ s.world)
  apply-setting (ttl v) s h = (refl, refl)
  apply-setting (hops v) s h = (refl, refl)
  apply-setting (group v) s h = (refl, refl)
  apply-setting (version v) s h = (refl, refl)
  apply-setting (version_vp v) s h = (refl, refl)
  apply-setting (ex_number v) s h = (refl, refl)
  apply-setting (from v) s h = (refl, refl)
  apply-setting (dest v) s h = (refl, refl)
  apply-setting (chan v) s h = (refl, refl)
  apply-setting (ex_prefix v) s h = (refl, refl)
  apply-setting (other t) s h = absurd h

  pub apply_all-settings :
      (pre : List Field) (s : Loop World)
      → All IsSetting pre
      → (apply_all eff session now pre s ≡ apply_all idle session now pre s)
        × ((apply_all idle session now pre s).world ≡ s.world)
  apply_all-settings [] s h = (refl, refl)
  apply_all-settings (f ∷ pre) s h =
      let one = apply-setting f s h.0 in
      let more = apply_all-settings pre (apply idle session now f s) h.1 in
      (ap (apply_all eff session now pre) one.0 ∙ more.0, more.1 ∙ one.1)

  pub apply_all-append :
      (pre gs : List Field) (s : Loop World)
      → apply_all eff session now (pre ++ gs) s
        ≡ apply_all eff session now gs (apply_all eff session now pre s)
  apply_all-append [] gs s = refl
  apply_all-append (f ∷ pre) gs s = apply_all-append pre gs (apply eff session now f s)

  pub setting-Handles : (r : _) (f : Field) → IsSetting f → Handles eff session now r f
  setting-Handles r (ttl v) h = tt
  setting-Handles r (hops v) h = tt
  setting-Handles r (group v) h = tt
  setting-Handles r (version v) h = tt
  setting-Handles r (version_vp v) h = tt
  setting-Handles r (ex_number v) h = tt
  setting-Handles r (from v) h = tt
  setting-Handles r (dest v) h = tt
  setting-Handles r (chan v) h = tt
  setting-Handles r (ex_prefix v) h = tt
  setting-Handles r (other t) h = absurd h

pub All-snoc :
    (P : Field → Type 0) (xs : List Field) (x : Field) → All P xs → P x → All P (xs ++ x ∷ [])
All-snoc P [] x h k = (k, tt)
All-snoc P (y ∷ xs) x h k = (h.0, All-snoc P xs x h.1 k)

pub All-map :
    (P Q : Field → Type 0) (xs : List Field) → ((x : Field) → P x → Q x) → All P xs → All Q xs
All-map P Q [] f h = tt
All-map P Q (x ∷ xs) f h = (f x h.0, All-map P Q xs f h.1)

pub last_ttl-snoc :
    (pre : List Field) (t : Tree) (o : Option ℕ) → last_ttl (pre ++ other t ∷ []) o ≡ last_ttl pre o
last_ttl-snoc [] t o = refl
last_ttl-snoc (f ∷ pre) t o = last_ttl-snoc pre t (ttl_field f o)

pub last_from-snoc :
    (pre : List Field) (t : Tree) (o : List ℕ) → last_from (pre ++ other t ∷ []) o ≡ last_from pre o
last_from-snoc [] t o = refl
last_from-snoc (f ∷ pre) t o = last_from-snoc pre t (from_field f o)

pub size-snoc :
    (pre : List Field) (f : Field) → size (pre ++ f ∷ []) ≡ size pre + length (bytes (forward f))
size-snoc [] f = omega arith
size-snoc (g ∷ pre) f = omega (arith, size-snoc pre f)

pub joined-snoc :
    (pre : List Field) (f : Field)
    → joined (map bytes (pre ++ f ∷ [])) ≡ joined (map bytes pre) ++ bytes f
joined-snoc [] f = append-nil (bytes f)
joined-snoc (g ∷ pre) f =
    ap (λ r. bytes g ++ r) (joined-snoc pre f)
    ∙ sym (append_assoc (bytes g) (joined (map bytes pre)) (bytes f))

pub forward-snoc :
    (pre : List Field) (t : Tree)
    → settled t ≡ t
    → map forward (pre ++ other t ∷ []) ≡ map forward pre ++ other t ∷ []
forward-snoc [] t e = ap (λ u. other u ∷ []) e
forward-snoc (f ∷ pre) t e = ap (λ r. forward f ∷ r) (forward-snoc pre t e)

pub bytes_some : (f : Field) → IsSetting f → 1 ≤ length (bytes (forward f))
bytes_some (ttl v) h = omega arith
bytes_some (hops v) h = omega arith
bytes_some (group v) h = omega arith
bytes_some (version v) h = omega arith
bytes_some (version_vp v) h = omega arith
bytes_some (ex_number v) h = omega arith
bytes_some (from v) h = omega arith
bytes_some (dest v) h = omega arith
bytes_some (chan v) h = omega arith
bytes_some (ex_prefix v) h = omega arith
bytes_some (other t) h = absurd h

pub length-size : (pre : List Field) → All IsSetting pre → length pre ≤ size pre
length-size [] h = omega arith
length-size (f ∷ pre) h = omega (arith, bytes_some f h.0, length-size pre h.1)

pub length-snoc : (pre : List Field) (f : Field) → length (pre ++ f ∷ []) ≡ length pre + 1
length-snoc pre f = length-append pre (f ∷ [])

pub IsField-fuel : (fuel : ℕ) (f : Field) → IsSetting f × IsField 0 f → IsField fuel f
IsField-fuel fuel (ttl v) h = h.1
IsField-fuel fuel (hops v) h = h.1
IsField-fuel fuel (group v) h = h.1
IsField-fuel fuel (version v) h = h.1
IsField-fuel fuel (version_vp v) h = h.1
IsField-fuel fuel (ex_number v) h = h.1
IsField-fuel fuel (from v) h = h.1
IsField-fuel fuel (dest v) h = h.1
IsField-fuel fuel (chan v) h = h.1
IsField-fuel fuel (ex_prefix v) h = h.1
IsField-fuel fuel (other t) h = absurd h.0
