-- ===== src/Mng/Numbers.antt =====
-- The numbers of the management protocol (src/server/mng.c): what is printed is read back.
use tpe_protos_g.Base.{
  ℕ, zero, suc, ◌+◌, ◌-◌, ◌*◌, ◌/◌, ◌%◌, ◌^◌, ◌≤◌, ◌<◌, ◌≡◌, arith, true, false, some, [], ◌∷◌, ltb,
  ◌==◌, Bytes, Bool-cases, inl, inr, ◌∙◌, ap,
}
use tpe_protos_g.Mng.Text.{
  unsigned, is_digit, isspace, digits, decimal, scan_digits, strtol, parse_nonnegative,
}

one_digit :
    (a d m : ℕ) (t : Bytes)
    → d < 10
    → a * 10 + d ≡ m
    → scan_digits a ((48 + d) ∷ t) ≡ scan_digits m t
unfolding scan_digits
one_digit a d m t small e =
    let is : is_digit (48 + d) ≡ true = ground arith in
    let same : a * 10 + (48 + d - 48) ≡ m = omega arith in rw is (ap (λ x. scan_digits x t) same)

-- Reading the digits that were printed gives the number, and goes on behind them.
scan_digits-digits :
    (fuel n : ℕ) (s : Bytes) → n < 10 ^ fuel → scan_digits 0 (digits fuel n s) ≡ scan_digits n s
unfolding digits scan_digits
scan_digits-digits zero n s h =
    let none_left : 0 ≡ n = omega arith in ap (λ a. scan_digits a s) none_left
scan_digits-digits (suc fuel) n s h = elim (Bool-cases (ltb n 10)) [
  | inl last ↦ rw last (one_digit 0 n n s (ground arith) (omega arith))
  | inr more ↦ rw more (
      scan_digits-digits fuel (n / 10) ((48 + n % 10) ∷ s) (omega arith)
      ∙ one_digit (n / 10) (n % 10) n s (omega arith) (omega arith))
]

StartsDigit : Bytes → Type 0
StartsDigit [] = ⊥
StartsDigit (c ∷ s) = (48 ≤ c) × (c ≤ 57)

digits_behind : (fuel n : ℕ) (s : Bytes) → StartsDigit s → StartsDigit (digits fuel n s)
unfolding digits StartsDigit
digits_behind zero n s h = h
digits_behind (suc fuel) n s h = elim (Bool-cases (ltb n 10)) [
  | inl last ↦ rw last (ground arith)
  | inr more ↦ rw more (digits_behind fuel (n / 10) ((48 + n % 10) ∷ s) (omega arith))
]

digits-StartsDigit : (fuel n : ℕ) (s : Bytes) → StartsDigit (digits (suc fuel) n s)
unfolding digits StartsDigit
digits-StartsDigit fuel n s = elim (Bool-cases (ltb n 10)) [
  | inl last ↦ rw last (ground arith)
  | inr more ↦ rw more (digits_behind fuel (n / 10) ((48 + n % 10) ∷ s) (omega arith))
]

strtol_digits :
    (n : ℕ) (xs : Bytes)
    → StartsDigit xs
    → scan_digits 0 xs ≡ (n, [])
    → strtol xs ≡ some (false, n, [])
unfolding strtol StartsDigit
strtol_digits n [] h e = absurd h
strtol_digits n (c ∷ xs) h e =
    let solid : isspace c ≡ false = ground arith in
    let digit : is_digit c ≡ true = ground arith in
    let minus : (c == 45) ≡ false = ground arith in
    let plus : (c == 43) ≡ false = ground arith in
    rw solid (rw minus (rw plus (rw digit (ap (λ (r : ℕ × Bytes). unsigned (some r)) e))))

-- strtol reads a printed number whole.
pub strtol-decimal : (n : ℕ) → n < 2 ^ 64 → strtol (decimal n) ≡ some (false, n, [])
unfolding scan_digits
strtol-decimal n h =
    strtol_digits n (decimal n) (digits-StartsDigit 19 n [])
      (scan_digits-digits 20 n [] (omega arith))

parse_digits :
    (n : ℕ) (xs : Bytes)
    → StartsDigit xs
    → scan_digits 0 xs ≡ (n, [])
    → n < 2 ^ 31
    → parse_nonnegative (some xs) ≡ some n
unfolding parse_nonnegative strtol StartsDigit
parse_digits n [] h e small = absurd h
parse_digits n (c ∷ xs) h e small =
    let solid : isspace c ≡ false = ground arith in
    let digit : is_digit c ≡ true = ground arith in
    let minus : (c == 45) ≡ false = ground arith in
    let plus : (c == 43) ≡ false = ground arith in
    rw solid (rw minus (rw plus (rw digit (ground (arith, e, small)))))

-- Every number that CONFIG SET accepts, up to 2^31 - 1, is read back from its printed form.
pub parse-decimal : (n : ℕ) → n < 2 ^ 31 → parse_nonnegative (some (decimal n)) ≡ some n
unfolding scan_digits
parse-decimal n small =
    parse_digits n (decimal n) (digits-StartsDigit 19 n [])
      (scan_digits-digits 20 n [] (omega arith)) small
