-- ===== src/Prelude/Bits.antt =====
-- Laws of `bit_xor` and `bit_and` at variables, from the digit recursion that they stand for.
use Prim.Native.Nat.{digits, bitwise, differ, bit_and-bitwise, bit_xor-bitwise}
use native.Mathlib.Nat.{pow-succ', div-div-eq-div-mul}
use Prim.Native.Nat.add
use peercast_yt.Prelude.{
  ℕ, zero, suc, Bool, true, ◌&&◌, ◌↔◌, ◌+◌, ◌*◌, ◌/◌, ◌%◌, ◌^◌, ◌≤◌, ◌<◌, ◌≡◌, refl, sym, ap, ◌∙◌,
  min, bit_and, bit_xor, arith,
}

-- The rounds that a digit recursion gets do not matter, once they are enough.
module _ (z : ℕ → ℕ) (f : ℕ → ℕ → ℕ) where
  digits_enough : (n m a b : ℕ) → a ≤ n → a ≤ m → digits z f n a b ≡ digits z f m a b
  digits_enough zero zero a b h k = refl
  digits_enough zero (suc m) zero b h k = refl
  digits_enough zero (suc m) (suc a) b h k = absurd (omega arith)
  digits_enough (suc n) zero zero b h k = refl
  digits_enough (suc n) zero (suc a) b h k = absurd (omega arith)
  digits_enough (suc n) (suc m) zero b h k = refl
  digits_enough (suc n) (suc m) (suc a) b h k =
      omega (arith, digits_enough n m (suc a / 2) (b / 2) (omega arith) (omega arith))

  bitwise_step :
      ((b : ℕ) → z b ≡ z (b / 2) * 2 + f 0 (b % 2))
      → (a b : ℕ) → bitwise z f a b ≡ bitwise z f (a / 2) (b / 2) * 2 + f (a % 2) (b % 2)
  bitwise_step last zero b = last b
  bitwise_step last (suc a) b =
      omega (arith, digits_enough a (suc a / 2) (suc a / 2) (b / 2) (omega arith) (omega arith))

differ_bits : (x y : ℕ) → x < 2 → y < 2 → differ x y ≡ (x + y) % 2
differ_bits zero y h k = omega arith
differ_bits (suc zero) zero h k = refl
differ_bits (suc zero) (suc zero) h k = refl
differ_bits (suc zero) (suc (suc y)) h k = absurd (omega arith)
differ_bits (suc (suc x)) y h k = absurd (omega arith)

pub xor_step : (a b : ℕ) → bit_xor a b ≡ bit_xor (a / 2) (b / 2) * 2 + (a + b) % 2
xor_step a b = omega (
  arith,
  bit_xor-bitwise a b,
  bit_xor-bitwise (a / 2) (b / 2),
  bitwise_step (λ b. b) differ (λ b. omega arith) a b,
  differ_bits (a % 2) (b % 2) (omega arith) (omega arith),
)

pub and_step : (a b : ℕ) → bit_and a b ≡ bit_and (a / 2) (b / 2) * 2 + min (a % 2) (b % 2)
and_step a b = omega (
  arith,
  bit_and-bitwise a b,
  bit_and-bitwise (a / 2) (b / 2),
  bitwise_step (λ b. 0) min (λ b. omega arith) a b,
)

pub zero-xor : (b : ℕ) → bit_xor 0 b ≡ b
zero-xor b = bit_xor-bitwise 0 b

xor_assoc_below :
    (n a b c : ℕ) → a ≤ n → b ≤ n → c ≤ n → bit_xor (bit_xor a b) c ≡ bit_xor a (bit_xor b c)
xor_assoc_below zero zero zero zero h k l = refl
xor_assoc_below zero (suc a) b c h k l = absurd (omega arith)
xor_assoc_below zero zero (suc b) c h k l = absurd (omega arith)
xor_assoc_below zero zero zero (suc c) h k l = absurd (omega arith)
xor_assoc_below (suc n) a b c h k l =
    xor_step (bit_xor a b) c
    ∙ (rw
          (
            left,
            right,
            xor_assoc_below n (a / 2) (b / 2) (c / 2) (omega arith) (omega arith) (omega arith),
          )
          (ap (λ k. bit_xor (a / 2) (bit_xor (b / 2) (c / 2)) * 2 + k) low)
        ∙ sym (xor_step a (bit_xor b c)))
  where
    left : bit_xor a b / 2 ≡ bit_xor (a / 2) (b / 2)
    left = omega (arith, xor_step a b)

    right : bit_xor b c / 2 ≡ bit_xor (b / 2) (c / 2)
    right = omega (arith, xor_step b c)

    low : (bit_xor a b + c) % 2 ≡ (a + bit_xor b c) % 2
    low = omega (arith, xor_step a b, xor_step b c)

pub xor_assoc : (a b c : ℕ) → bit_xor (bit_xor a b) c ≡ bit_xor a (bit_xor b c)
xor_assoc a b c = xor_assoc_below (a + b + c) a b c (omega arith) (omega arith) (omega arith)

xor_comm_below : (n a b : ℕ) → a ≤ n → b ≤ n → bit_xor a b ≡ bit_xor b a
xor_comm_below zero zero zero h k = refl
xor_comm_below zero (suc a) b h k = absurd (omega arith)
xor_comm_below zero zero (suc b) h k = absurd (omega arith)
xor_comm_below (suc n) a b h k = omega (
  arith,
  xor_step a b,
  xor_step b a,
  xor_comm_below n (a / 2) (b / 2) (omega arith) (omega arith),
)

pub xor_comm : (a b : ℕ) → bit_xor a b ≡ bit_xor b a
xor_comm a b = xor_comm_below (a + b) a b (omega arith) (omega arith)

xor_self_below : (n a : ℕ) → a ≤ n → bit_xor a a ≡ 0
xor_self_below zero zero h = refl
xor_self_below zero (suc a) h = absurd (omega arith)
xor_self_below (suc n) a h = omega (arith, xor_step a a, xor_self_below n (a / 2) (omega arith))

pub xor_self : (a : ℕ) → bit_xor a a ≡ 0
xor_self a = xor_self_below a a (omega arith)

pub xor-zero : (a : ℕ) → bit_xor a 0 ≡ a
xor-zero a = xor_comm a 0 ∙ zero-xor a

-- A mask taken twice cancels.
pub xor_cancel : (a k : ℕ) → bit_xor (bit_xor a k) k ≡ a
xor_cancel a k = rw (xor_assoc a k k, xor_self k) (xor-zero a)

-- Two masks may be taken in either order.
pub xor_swap : (a j k : ℕ) → bit_xor (bit_xor a j) k ≡ bit_xor (bit_xor a k) j
xor_swap a j k = rw (xor_assoc a j k, xor_comm j k) (sym (xor_assoc a k j))

-- A mask that ends in a zero digit.
and_double : (a m : ℕ) → bit_and a (m * 2) ≡ bit_and (a / 2) m * 2
and_double a m = rw (and_step a (m * 2), half) (omega arith)
  where
    half : m * 2 / 2 ≡ m
    half = omega arith

-- `n` ones, and `k` digits shifted out of a number or into it.
abbrev pub ones : ℕ → ℕ
ones zero = 0
ones (suc n) = ones n * 2 + 1

abbrev pub shr : ℕ → ℕ → ℕ
shr zero a = a
shr (suc k) a = shr k (a / 2)

abbrev pub shl : ℕ → ℕ → ℕ
shl zero m = m
shl (suc k) m = shl k m * 2

and-ones : (n a : ℕ) → a ≤ ones n → bit_and a (ones n) ≡ a
and-ones zero zero h = refl
and-ones zero (suc a) h = absurd (omega arith)
and-ones (suc n) a h =
    rw (and_step a (ones n * 2 + 1), half) (omega (arith, and-ones n (a / 2) (omega arith)))
  where
    half : (ones n * 2 + 1) / 2 ≡ ones n
    half = omega arith

and-shl : (k a m : ℕ) → bit_and a (shl k m) ≡ shl k (bit_and (shr k a) m)
and-shl zero a m = refl
and-shl (suc k) a m = and_double a (shl k m) ∙ ap (λ r. r * 2) (and-shl k (a / 2) m)

shr-le_ones : (k n a : ℕ) → a ≤ ones (k + n) → shr k a ≤ ones n
shr-le_ones zero n a h = rw (← add.zero n) h
shr-le_ones (suc k) n a h = shr-le_ones k n (a / 2) half
  where
    wide : a ≤ ones (k + n) * 2 + 1
    wide = rw add.suc at h

    half : a / 2 ≤ ones (k + n)
    half = omega (arith, wide)

shl_inj : (k a b : ℕ) → shl k a ≡ shl k b → a ≡ b
shl_inj zero a b h = h
shl_inj (suc k) a b h = shl_inj k a b (omega arith)

pub shr-eq_div : (k a : ℕ) → shr k a ≡ a / 2 ^ k
shr-eq_div zero a = omega arith
shr-eq_div (suc k) a =
    shr-eq_div k (a / 2) ∙ div-div-eq-div-mul a 2 (2 ^ k) ∙ ap (λ m. a / m) (sym (pow-succ' 2 k))

-- Two numbers of k + n digits agree under the mask of their upper n digits exactly when their
-- quotients by 2 ^ k are the same.
pub and_prefix_iff :
    (k n a b : ℕ)
    → a ≤ ones (k + n)
    → b ≤ ones (k + n)
    → (bit_and a (shl k (ones n)) ≡ bit_and b (shl k (ones n))) ↔ (a / 2 ^ k ≡ b / 2 ^ k)
and_prefix_iff k n a b ha hb = (
  λ e. sym (shr-eq_div k a) ∙ shl_inj k _ _ (sym (upper a ha) ∙ e ∙ upper b hb) ∙ shr-eq_div k b,
  λ e. upper a ha ∙ ap (shl k) (shr-eq_div k a ∙ e ∙ sym (shr-eq_div k b)) ∙ sym (upper b hb),
)
  where
    upper : (c : ℕ) → c ≤ ones (k + n) → bit_and c (shl k (ones n)) ≡ shl k (shr k c)
    upper c hc = and-shl k c (ones n) ∙ ap (shl k) (and-ones n (shr k c) (shr-le_ones k n c hc))

-- What holds of every number below a bound, by trying them all.
abbrev pub all_below : ℕ → (ℕ → Bool) → Bool
all_below zero p = true
all_below (suc n) p = p n && all_below n p

pub all_below_lem : (n : ℕ) (p : ℕ → Bool) (x : ℕ) → all_below n p ≡ true → x < n → p x ≡ true
all_below_lem zero p x h k = absurd (omega arith)
all_below_lem (suc n) p x h k = ground (arith, all_below_lem n p x)
