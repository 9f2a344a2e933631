-- ===== src/Selector/Capacity.antt =====
-- How the table of src/shared/selector.c grows.
use tpe_protos_g.Base.{
  ℕ, zero, suc, ◌+◌, ◌*◌, ◌/◌, ◌%◌, ◌^◌, ◌≤◌, ◌<◌, ◌≡◌, ◌⊎◌, inl, inr, refl, arith, some, min, ltb,
  if◌then◌else◌, ◌≢◌, ap, false, ◌∙◌, ◌==◌, Bool-cases, false,
}
use tpe_protos_g.Selector.{bit_count, next_capacity, too_many}

double : (k : ℕ) → 2 ^ (k + 1) ≡ 2 ^ k * 2
double k =
    let next : k + 1 ≡ suc k = omega arith in
    let twice : 2 ^ suc k ≡ 2 ^ k * 2 = omega arith in ap (λ j. 2 ^ j) next ∙ twice

-- one bit more
bit_more :
    (n b : ℕ)
    → n ≢ 0
    → n / 2 < 2 ^ b
    → ((n / 2 ≡ 0) × (b ≡ 0)) ⊎ (2 ^ b ≤ n / 2 * 2)
    → (n < 2 ^ (b + 1)) × (2 ^ (b + 1) ≤ n * 2)
bit_more n b ne lo (inl (half, none_yet)) = omega (arith, double b, ap (λ k. 2 ^ k) none_yet)
bit_more n b ne lo (inr hi) = omega (arith, double b)

-- The bits of a number: it is below that power of two, which is at most twice the number.
bit_count-bounds :
    (fuel n : ℕ)
    → n < 2 ^ fuel
    → (n < 2 ^ bit_count fuel n)
      × (((n ≡ 0) × (bit_count fuel n ≡ 0)) ⊎ (2 ^ bit_count fuel n ≤ n * 2))
unfolding bit_count
bit_count-bounds zero n h = (omega arith, inl (omega arith, refl))
bit_count-bounds (suc fuel) n h = elim (Bool-cases (n == 0)) [
  | inl none_left ↦ rw none_left (ground arith, inl (ground arith, refl))
  | inr some_left ↦
      let (lo, hi) = bit_count-bounds fuel (n / 2) (omega arith) in
      let (below, half) = bit_more n (bit_count fuel (n / 2)) (ground arith) lo hi in
      rw some_left (below, inr half)
]

-- For any number of elements below 2^63, next_capacity fails no assert, stops at 1025, and else has
-- room for one more element than asked, within twice their number and two.
pub next_capacity_lem :
    (n : ℕ)
    → n < 2 ^ 63
    → (c : ℕ) × (next_capacity n ≡ some c) × (c ≤ 1025) × (min n 1024 < c) × (c ≤ n * 2 + 2)
unfolding next_capacity
next_capacity_lem n h =
    let (lo, hi) = bit_count-bounds 64 n (omega arith) in
    let low : 2 ^ bit_count 64 n < 2 ^ 64 = elim hi [
      | inl (empty, bits) ↦ omega (arith, ap (λ k. 2 ^ k) bits)
      | inr at_most ↦ omega arith
    ] in
    let same : 2 ^ bit_count 64 n % 2 ^ 64 ≡ 2 ^ bit_count 64 n = omega (arith, low) in
    (
      (if ltb 1024 (2 ^ bit_count 64 n) then 1024 else 2 ^ bit_count 64 n) + 1,
      rw same (ground (arith, lo)),
      ground arith,
      ground (arith, lo),
      ground (arith, hi),
    )

pub small_enough : (n : ℕ) → n ≤ 1025 → too_many n ≡ false
unfolding too_many
small_enough n h = ground arith
