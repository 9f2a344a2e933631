-- ===== src/Args.antt =====
-- The values of the command line (src/shared/args.c): ports, counts and users. `none` is `exit(1)`.
pub mod Ranges
pub mod Options
use tpe_protos_g.Base.{
  ℕ, ◌≡◌, ◌≢◌, ◌-◌, ◌<◌, ◌^◌, Bool, Option, none, some, [], ◌∷◌, ◌++◌, ltb, leb, ◌==◌, ◌&&◌, ◌||◌,
  if◌then◌else◌, Bytes, Bool-cases, inl, inr, ap, refl, arith, false,
}
use tpe_protos_g.Mng.Text.{strtol, decimal}
use tpe_protos_g.Mng.Numbers.{strtol-decimal}

-- A value that strtol cut to 64 bits is above both bounds, as the value itself is.
abbrev pub in_range : ℕ → Option (Bool × ℕ × Bytes) → Option ℕ
in_range most none = none
in_range most (some (negative, n, [])) =
    if (negative && ltb 0 n) || ltb most n then none else some n
in_range most (some (negative, n, c ∷ s)) = none

unfoldable pub port : Bytes → Option ℕ
port s = in_range 65535 (strtol s)

unfoldable pub nonneg_int : Bytes → Option ℕ
nonneg_int s = in_range (2 ^ 31 - 1) (strtol s)

abbrev named : ℕ → Option (Bytes × Bytes) → Option (Bytes × Bytes)
named c none = none
named c (some (name, pass)) = some (c ∷ name, pass)

-- the name and the password
unfoldable pub user : Bytes → Option (Bytes × Bytes)
user [] = none
user (c ∷ s) = let rest = user s in if c == 58 then some ([], s) else named c rest

abbrev pub NoColon : Bytes → Type 0
NoColon [] = Unit {0}
NoColon (c ∷ s) = (c ≢ 58) × NoColon s

-- What a value of -u means: no colon and the program stops, or the name, the colon and the password.
abbrev pub Means : Bytes → Option (Bytes × Bytes) → Type 0
Means s none = NoColon s
Means s (some (name, pass)) = NoColon name × (s ≡ name ++ 58 ∷ pass)

named-Means :
    (c : ℕ) (s : Bytes) (r : Option (Bytes × Bytes))
    → c ≢ 58
    → Means s r
    → Means (c ∷ s) (named c r)
named-Means c s none other h = (other, h)
named-Means c s (some (name, pass)) other (h, e) = ((other, h), ap (λ (t : Bytes). c ∷ t) e)

-- For every value of -u: the program stops and the value has no colon, or it goes on with a name
-- without a colon and a password, and the value is the name, a colon and the password.
pub user-Means : (s : Bytes) → Means s (user s)
unfolding user
user-Means [] = tt
user-Means (c ∷ s) = elim (Bool-cases (c == 58)) [
  | inl colon ↦ rw colon (tt, ap (λ (d : ℕ). d ∷ s) (ground (arith, colon)))
  | inr other ↦ rw other (named-Means c s (user s) (ground (arith, other)) (user-Means s))
]

-- A printed number below 2^64 is taken by -p and -P exactly when it is at most 65535, and by -m
-- exactly when it is at most 2^31 - 1; else the program stops.
pub printed_arguments :
    (n : ℕ)
    → n < 2 ^ 64
    → (port (decimal n) ≡ (if leb n 65535 then some n else none))
      × (nonneg_int (decimal n) ≡ (if ltb n (2 ^ 31) then some n else none))
unfolding port nonneg_int
printed_arguments n h =
    (rw (strtol-decimal n h) (ground arith), rw (strtol-decimal n h) (ground arith))
