-- ===== src/Base/Texts.antt =====
-- C strings as the lists of their bytes.
use Prim.Native.Nat.{ℕ, zero, suc, ◌≤◌, ◌<◌, compare, Ordering}
use Prim.Native.Char.{code}
use Prim.Native.String.{String}
use mathlib.Core.Path.{◌≡◌, refl, sym, ap, ◌∙◌}
use mathlib.Core.Option.{some}
use tpe_protos_g.Base.Lists.{take, get_elem?, length, take_all, length-take}
use mathlib.Core.Logic.{◌≢◌}
use mathlib.Core.Bool.{Bool, true, false, ◌&&◌}
use mathlib.Core.List.{List, [], ◌∷◌}
use native.Mathlib.Omega.{arith}

abbrev pub Bytes : Type 0
Bytes = List ℕ

-- The bytes of a literal, all of which are ASCII here.
abbrev pub codes : String → Bytes
codes String.[] = []
codes (String.◌∷◌ c s) = code c ∷ codes s

-- Every element is a byte.
abbrev pub AllBytes : Bytes → Type 0
AllBytes [] = Unit {0}
AllBytes (x ∷ xs) = (x < 256) × AllBytes xs

abbrev pub byte_eq : ℕ → ℕ → Bool
byte_eq a b = elim (compare a b) [ Ordering.eq ↦ true | _ ↦ false ]

-- `strcmp(a, b) == 0`, for texts that hold no NUL
unfoldable pub str_eq : Bytes → Bytes → Bool
str_eq [] [] = true
str_eq [] (y ∷ ys) = false
str_eq (x ∷ xs) [] = false
str_eq (x ∷ xs) (y ∷ ys) = byte_eq x y && str_eq xs ys

pub str_eq→eq : (a b : Bytes) → str_eq a b ≡ true → a ≡ b
unfolding str_eq
str_eq→eq [] [] h = refl
str_eq→eq [] (y ∷ ys) h = cc
str_eq→eq (x ∷ xs) [] h = cc
str_eq→eq (x ∷ xs) (y ∷ ys) h = ground (arith, str_eq→eq xs ys)

pub str_eq_refl : (a : Bytes) → str_eq a a ≡ true
unfolding str_eq
str_eq_refl [] = refl
str_eq_refl (x ∷ xs) = ground (arith, str_eq_refl xs)

-- `strncmp(a, b, n) == 0`, for texts that hold no NUL
abbrev pub strncmp_eq : ℕ → Bytes → Bytes → Bool
strncmp_eq n a b = str_eq (take n a) (take n b)

-- Up to more bytes than the first text has, it is equality.
pub strncmp_eq→eq : (n : ℕ) (a b : Bytes) → length a < n → strncmp_eq n a b ≡ true → a ≡ b
strncmp_eq→eq n a b h e = sym (take_all n a (omega arith)) ∙ same ∙ take_all n b short
  where
    same : take n a ≡ take n b
    same = str_eq→eq (take n a) (take n b) e

    short : length b ≤ n
    short = omega (arith, ap length same, length-take n a, length-take n b)

pub strncmp_ne : (n : ℕ) (a b : Bytes) → strncmp_eq n a b ≡ false → a ≢ b
strncmp_ne n a b e same = cc (sym e ∙ ap (λ t. strncmp_eq n t b) same ∙ str_eq_refl (take n b))

pub str_ne : (a b : Bytes) → str_eq a b ≡ false → a ≢ b
str_ne a b e same = cc (sym e ∙ ap (λ t. str_eq t b) same ∙ str_eq_refl b)

-- The text that a `char` array holds: what stands before its first NUL.
abbrev pub c_string : Bytes → Bytes
c_string [] = []
c_string (x ∷ xs) = elim (byte_eq x 0) [ true ↦ [] | false ↦ x ∷ c_string xs ]

-- What an array holds, from what stands before a NUL in it.
pub c_string-take : (a : Bytes) (n : ℕ) → get_elem? a n ≡ some 0 → c_string a ≡ c_string (take n a)
c_string-take [] n h = cc
c_string-take (x ∷ a) zero h = ground arith
c_string-take (x ∷ a) (suc n) h = ground (arith, c_string-take a n)
