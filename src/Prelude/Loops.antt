-- ===== src/Prelude/Loops.antt =====
-- `for (unsigned int i = first; i <= last; i++)` over a loop state, and the recursion that it meets.
-- Fuel bounds the rounds; `none` means that it ran out.
use peercast_yt.Prelude.{
  ℕ, zero, suc, ◌+◌, ◌<◌, ◌≡◌, Option, none, some, arith, leb, if◌then◌else◌, subst,
}
use peercast_yt.Prelude.Words.{u32_mod, add32}

module _ {ℓ} {S : Type ℓ} where
  -- The counter wraps at 2 ^ 32.
  unfoldable pub for_u32 : ℕ → (ℕ → S → S) → ℕ → ℕ → S → Option S
  for_u32 zero body i last s = none
  for_u32 (suc fuel) body i last s =
      let rest = for_u32 fuel body (add32 i 1) last (body i s) in
      if leb i last then rest else some s

  -- `n` rounds from `i` on.
  abbrev pub rounds : ℕ → (ℕ → S → S) → ℕ → S → S
  rounds zero body i s = s
  rounds (suc n) body i s = rounds n body (i + 1) (body i s)

  -- A loop whose last index is not the greatest word ends after one round for each index.
  pub for_u32-rounds :
      (n fuel : ℕ) (body : ℕ → S → S) (i last : ℕ) (s : S)
      → last + 1 < u32_mod
      → n < fuel
      → i + n ≡ last + 1
      → for_u32 fuel body i last s ≡ some (rounds n body i s)
  unfolding for_u32
  for_u32-rounds n zero body i last s h k e = absurd (omega arith)
  for_u32-rounds zero (suc fuel) body i last s h k e = ground arith
  for_u32-rounds (suc n) (suc fuel) body i last s h k e =
      ground (arith, for_u32-rounds n fuel body (i + 1) last (body i s), wrap)
    where
      wrap : add32 i 1 ≡ i + 1
      wrap = omega arith

  -- A property of the loop state that every round keeps, at its index.
  pub rounds_inv {κ} :
      (P : ℕ → S → Type κ) (body : ℕ → S → S) (last : ℕ)
      → ((i : ℕ) (s : S) → i < last → P i s → P (i + 1) (body i s))
      → (n i : ℕ) (s : S) → i + n ≡ last
      → P i s
      → P last (rounds n body i s)
  rounds_inv P body last step zero i s e p = subst_index
    where
      index : i ≡ last
      index = omega arith

      subst_index : P last s
      subst_index = subst (λ k. P k s) index p
  rounds_inv P body last step (suc n) i s e p =
      rounds_inv P body last step n (i + 1) (body i s) (omega arith) (step i s (omega arith) p)
