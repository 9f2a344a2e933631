-- ===== src/Args/Ranges.antt =====
-- The bounds of the numbers of the command line (src/shared/args.c).
use tpe_protos_g.Args.{port, nonneg_int, in_range}
use tpe_protos_g.Base.{
  Every, ℕ, ◌≤◌, ◌^◌, ◌-◌, Bool, Option, none, some, [], ◌∷◌, Bytes, arith, ltb, if◌then◌else◌,
  ◌&&◌, ◌||◌, true, false, Bool-cases, inl, inr,
}
use tpe_protos_g.Mng.Text.{strtol}

in_range-Every :
    (most : ℕ) (r : Option (Bool × ℕ × Bytes)) → Every (λ n. n ≤ most) (in_range most r)
in_range-Every most none = tt
in_range-Every most (some (negative, n, c ∷ s)) = tt
in_range-Every most (some (negative, n, [])) = elim (Bool-cases (ltb most n)) [
  | inl above ↦ rw above (beyond (negative && ltb 0 n))
  | inr fits ↦ rw fits (within (negative && ltb 0 n) (ground (arith, fits)))
]
  where
    beyond : (b : Bool) → Every (λ x. x ≤ most) (if b || true then none else some n)
    beyond true = tt
    beyond false = tt

    within : (b : Bool) → n ≤ most → Every (λ x. x ≤ most) (if b || false then none else some n)
    within true h = tt
    within false h = h

pub port-Every : (s : Bytes) → Every (λ n. n ≤ 65535) (port s)
unfolding port
port-Every s = in_range-Every 65535 (strtol s)

pub nonneg_int-Every : (s : Bytes) → Every (λ n. n ≤ 2 ^ 31 - 1) (nonneg_int s)
unfolding nonneg_int
nonneg_int-Every s = in_range-Every (2 ^ 31 - 1) (strtol s)
