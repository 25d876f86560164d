-- ===== src/GnuId/Seen.antt =====
-- `GnuIDList`: a table of fixed size that forgets the identifier seen longest ago.
use peercast_yt.Prelude.{
  ℕ, zero, suc, ◌+◌, ◌≤◌, ◌<◌, ◌≡◌, ◌⊎◌, inl, inr, refl, true, false, List, [], ◌∷◌, leb,
  if◌then◌else◌, arith, All, length, get_or, set, bytes_eq→eq, bytes_eq_refl, Bool-cases,
}
use peercast_yt.GnuId.{
  GnuId, Place, same_at, oldest_at, cleared, is_same, contains, find_place, put_at, add,
}

abbrev pub time_at : List GnuId → ℕ → ℕ
time_at xs k = (get_or xs k cleared).store_time

-- Entry `k` is the oldest of the table.
abbrev pub IsOldest : List GnuId → ℕ → Type 0
IsOldest xs k = (k < length xs) × ((j : ℕ) → j < length xs → time_at xs k ≤ time_at xs j)

-- What the loop of `add` finds in the entries from index `i` on, given the least time before them.
abbrev Found : List GnuId → GnuId → ℕ → ℕ → ℕ → Place → Type 0
Found xs a i min_time min_index (same_at k) =
    (j : ℕ) × (k ≡ i + j)
    × (j < length xs)
    × (is_same (get_or xs j cleared) a ≡ true)
    × (contains xs a ≡ true)
Found xs a i min_time min_index (oldest_at k) =
    (contains xs a ≡ false)
    × (((k ≡ min_index) × ((j : ℕ) → j < length xs → min_time < time_at xs j))
        ⊎ ((j : ℕ) × (k ≡ i + j) × (time_at xs j ≤ min_time) × IsOldest xs j))

for_cons :
    (P : ℕ → Type 0) (n : ℕ) → P zero → ((j : ℕ) → j < n → P (suc j)) → (j : ℕ) → j < suc n → P j
for_cons P n z s zero h = z
for_cons P n z s (suc j) h = s j (omega arith)

Found-cons :
    (x : GnuId) (xs : List GnuId) (a : GnuId) (i t m : ℕ) (p : Place)
    → is_same x a ≡ false
    → Found xs a
        (i + 1)
        (if leb x.store_time t then x.store_time else t)
        (if leb x.store_time t then i else m)
        p
    → Found (x ∷ xs) a i t m p
unfolding contains
Found-cons x xs a i t m (same_at k) other (j, e, lt, same, c) =
    (suc j, omega arith, omega arith, same, rw other c)
Found-cons x xs a i t m (oldest_at k) other (c, inl (e, above)) =
    elim (Bool-cases (leb x.store_time t)) [
      | inl older ↦ (
        rw other c,
        inr (
          zero,
          ground arith,
          ground arith,
          (
            omega arith,
            for_cons (λ j. x.store_time ≤ time_at (x ∷ xs) j) (length xs) (omega arith)
                (λ j h. ground (arith, above j h)),
          ),
        ),
      )
      | inr newer ↦ (
        rw other c,
        inl (
          ground arith,
          for_cons (λ j. t < time_at (x ∷ xs) j) (length xs) (ground arith)
              (λ j h. ground (arith, above j h)),
        ),
      )
    ]
Found-cons x xs a i t m (oldest_at k) other (c, inr (j, e, le, oldest)) = (
  rw other c,
  inr (
    suc j,
    omega arith,
    ground arith,
    (
      omega (arith, oldest.0),
      for_cons (λ n. time_at xs j ≤ time_at (x ∷ xs) n) (length xs) (ground arith)
          (λ n h. oldest.1 n h),
    ),
  ),
)

find_place-Found :
    (xs : List GnuId) (a : GnuId) (i t m : ℕ) → Found xs a i t m (find_place xs a i t m)
unfolding find_place
find_place-Found [] a i t m = (unfold contains in refl, inl (refl, λ j h. absurd (omega arith)))
find_place-Found (x ∷ xs) a i t m = elim (Bool-cases (is_same x a)) [
  | inl same ↦ rw same (zero, omega arith, omega arith, same, unfold contains in rw same refl)
  | inr other ↦ rw other (Found-cons x xs a i t m _ other (find_place-Found xs a (i + 1) _ _))
]

-- What `add` does to a table: `xs` before, `ys` after.
abbrev pub Added : ℕ → List GnuId → GnuId → List GnuId → Type 0
Added now xs a ys =
    ((contains xs a ≡ true)
      × ((k : ℕ) × (k < length xs)
          × (is_same (get_or xs k cleared) a ≡ true)
          × (ys ≡ set xs k (record { id = a.id; store_time = now }))))
    ⊎ ((contains xs a ≡ false)
        × ((k : ℕ) × IsOldest xs k × (ys ≡ set xs k (record { id = a.id; store_time = now }))))

get_or_default :
    (xs : List GnuId) (k : ℕ) (a b : GnuId) → k < length xs → get_or xs k a ≡ get_or xs k b
get_or_default [] k a b h = absurd (omega arith)
get_or_default (x ∷ xs) zero a b h = refl
get_or_default (x ∷ xs) (suc k) a b h = get_or_default xs k a b (omega arith)

first-le :
    (xs : List GnuId)
    → All (λ x. x.store_time ≤ 0xffffffff) xs
    → 0 < length xs
    → time_at xs 0 ≤ 0xffffffff
first-le [] w h = absurd (omega arith)
first-le (x ∷ xs) w h = w.0

put_at-Added :
    (now : ℕ) (xs : List GnuId) (a : GnuId) (p : Place)
    → All (λ x. x.store_time ≤ 0xffffffff) xs
    → 0 < length xs
    → Found xs a 0 0xffffffff 0 p
    → Added now xs a (put_at xs a now p)
put_at-Added now xs a (same_at k) w h (j, e, lt, same, c) = inl (
  c,
  (
    j,
    lt,
    same,
    rw (at, get_or_default xs j a cleared lt, bytes_eq→eq (get_or xs j cleared).id a.id same),
  ),
)
  where
    at : k ≡ j
    at = omega arith
put_at-Added now xs a (oldest_at k) w h (c, inl (e, above)) =
    absurd (omega (arith, above 0 h, first-le xs w h))
put_at-Added now xs a (oldest_at k) w h (c, inr (j, e, le, oldest)) = inr (c, (j, oldest, rw at))
  where
    at : k ≡ j
    at = omega arith

-- `add` at time `now`, to a table that is not empty and whose times are 32-bit words: if the
-- identifier is there, an entry that holds it gets the time `now`; else the entry seen longest ago is
-- replaced by it, with the time `now`. All other entries stay.
pub add-Added :
    (now : ℕ) (xs : List GnuId) (a : GnuId)
    → All (λ x. x.store_time ≤ 0xffffffff) xs
    → 0 < length xs
    → Added now xs a (add now xs a)
unfolding add
add-Added now xs a w h =
    put_at-Added now xs a (find_place xs a 0 0xffffffff 0) w h
      (find_place-Found xs a 0 0xffffffff 0)

contains-set :
    (xs : List GnuId) (k : ℕ) (a b : GnuId)
    → k < length xs
    → is_same b a ≡ true
    → contains (set xs k b) a ≡ true
unfolding contains
contains-set [] k a b h e = absurd (omega arith)
contains-set (x ∷ xs) zero a b h e = rw e
contains-set (x ∷ xs) (suc k) a b h e = ground (arith, contains-set xs k a b (omega arith) e)

-- So an identifier that was just added is in the table.
pub contains-add :
    (now : ℕ) (xs : List GnuId) (a : GnuId)
    → All (λ x. x.store_time ≤ 0xffffffff) xs
    → 0 < length xs
    → contains (add now xs a) a ≡ true
contains-add now xs a w h = elim (add-Added now xs a w h) [
  | inl (_, (k, lt, _, e)) ↦ rw e (contains-set xs k a _ lt (bytes_eq_refl a.id))
  | inr (_, (k, (lt, _), e)) ↦ rw e (contains-set xs k a _ lt (bytes_eq_refl a.id))
]
