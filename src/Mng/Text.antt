-- ===== src/Mng/Text.antt =====
-- The tokens and numbers of the management protocol (src/server/mng.c), and what it uses of the C
-- library for them: isspace, strtol and the formats %d and %llu.
use tpe_protos_g.Base.{
  ℕ, zero, suc, ◌+◌, ◌-◌, ◌*◌, ◌/◌, ◌%◌, ◌^◌, Bool, true, false, ◌&&◌, ◌||◌, Option, none, some, [],
  ◌∷◌, ◌++◌, ltb, leb, ◌==◌, if◌then◌else◌, ℤ, pos, negsuc, Bytes, codes,
}
use Prim.Native.String.{String}

-- in the C locale
abbrev pub isspace : ℕ → Bool
isspace c = (c == 32) || (leb 9 c && leb c 13)

abbrev pub is_digit : ℕ → Bool
is_digit c = leb 48 c && leb c 57

abbrev keep_if_solid : ℕ → Bytes → Bytes
keep_if_solid c [] = if isspace c then [] else c ∷ []
keep_if_solid c (x ∷ xs) = c ∷ x ∷ xs

unfoldable pub trim_right : Bytes → Bytes
trim_right [] = []
trim_right (c ∷ s) = keep_if_solid c (trim_right s)

abbrev pub skip_spaces : Bytes → Bytes
skip_spaces [] = []
skip_spaces (c ∷ s) = let rest = skip_spaces s in if isspace c then rest else c ∷ s

-- the token that starts here, and the cursor behind the space that ends it
abbrev pub split_token : Bytes → Bytes × Bytes
split_token [] = ([], [])
split_token (c ∷ s) =
    let rest = split_token s in if isspace c then ([], s) else (c ∷ rest.0, rest.1)

abbrev token_at : Bytes → Option Bytes × Bytes
token_at [] = (none, [])
token_at (c ∷ s) = let r = split_token (c ∷ s) in (some r.0, r.1)

-- NULL is `none`; the second part is the new cursor.
unfoldable pub next_token : Bytes → Option Bytes × Bytes
next_token s = token_at (skip_spaces s)

-- the digits of strtol, behind the value of those before
unfoldable pub scan_digits : ℕ → Bytes → ℕ × Bytes
scan_digits n [] = (n, [])
scan_digits n (c ∷ s) =
    let rest = scan_digits (n * 10 + (c - 48)) s in if is_digit c then rest else (n, c ∷ s)

-- `none` if no digit is there; else the value, with no bound, and what is left
abbrev pub digits_at : Bytes → Option (ℕ × Bytes)
digits_at [] = none
digits_at (c ∷ s) = if is_digit c then some (scan_digits 0 (c ∷ s)) else none

abbrev negated : Option (ℕ × Bytes) → Option (Bool × ℕ × Bytes)
negated none = none
negated (some (n, rest)) = some (true, n, rest)

abbrev pub unsigned : Option (ℕ × Bytes) → Option (Bool × ℕ × Bytes)
unsigned none = none
unsigned (some (n, rest)) = some (false, n, rest)

abbrev signed : Bytes → Option (Bool × ℕ × Bytes)
signed [] = none
signed (c ∷ s) =
    if c == 45
    then negated (digits_at s)
    else if c == 43
    then unsigned (digits_at s)
    else unsigned (digits_at (c ∷ s))

-- `strtol(s, &end, 10)`: whether it is negative, its digits' value, and the text from `end` on. No
-- conversion (`end == s`) is `none`. The value has no bound here; errno is set past 63 bits.
unfoldable pub strtol : Bytes → Option (Bool × ℕ × Bytes)
strtol s = signed (skip_spaces s)

-- the test of what strtol returned
abbrev pub int32_of : Option (Bool × ℕ × Bytes) → Option ℕ
int32_of none = none
int32_of (some (negative, n, [])) = if leb (2 ^ 31) n || (negative && ltb 0 n) then none else some n
int32_of (some (negative, n, c ∷ s)) = none

-- `none` is false; else true, and the value for `*value`.
unfoldable pub parse_nonnegative : Option Bytes → Option ℕ
parse_nonnegative none = none
parse_nonnegative (some []) = none
parse_nonnegative (some (c ∷ s)) = int32_of (strtol (c ∷ s))

-- the digits of a number, in front of a text; 20 are enough for 64 bits
unfoldable pub digits : ℕ → ℕ → Bytes → Bytes
digits zero n s = s
digits (suc fuel) n s =
    let more = digits fuel (n / 10) ((48 + n % 10) ∷ s) in if ltb n 10 then (48 + n) ∷ s else more

-- `%llu` and `%d`
abbrev pub decimal : ℕ → Bytes
decimal n = digits 20 n []

abbrev pub decimal_int : ℤ → Bytes
decimal_int (pos n) = decimal n
decimal_int (negsuc n) = 45 ∷ decimal (n + 1)

-- a text and the line feed
abbrev pub line_of : String → Bytes
line_of s = codes s ++ 10 ∷ []
