-- ===== src/Prelude/Words.antt =====
-- The `unsigned int` of the source: a native number below 2 ^ 32, with its wrap-around written out.
use peercast_yt.Prelude.{ℕ, ◌+◌, ◌-◌, ◌%◌, ◌≤◌, ◌<◌, ◌≡◌, arith}

abbrev pub u32_mod : ℕ
u32_mod = 4294967296

abbrev pub add32 : ℕ → ℕ → ℕ
add32 a b = (a + b) % u32_mod

abbrev pub sub32 : ℕ → ℕ → ℕ
sub32 a b = (a + u32_mod - b) % u32_mod

pub sub32-eq_of_le : (a b : ℕ) → b ≤ a → a < u32_mod → sub32 a b ≡ a - b
sub32-eq_of_le a b h k = omega arith
