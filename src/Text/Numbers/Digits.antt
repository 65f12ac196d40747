-- ===== src/Text/Numbers/Digits.antt =====
-- Numbers written in decimal digits, and read back.
use cccloud.Prelude.{
  if◌then◌else◌, true, leb, ◌==◌, Bool, ℕ, zero, suc, ◌+◌, ◌-◌, ◌*◌, ◌/◌, ◌%◌, ◌<◌, ◌≤◌, ◌≡◌, ◌≢◌,
  refl, sym, ap, ◌∙◌, subst, inl, inr, false, [], ◌∷◌, arith, ltb, Bool-cases,
}
use cccloud.Text.{Text}
use cccloud.Text.Numbers.{
  invalid_argument, out_of_range, Parsed, value, is_space, is_digit, read_digits, in_range,
  unsigned_part, signed_part, parse_int, put_digits, to_string,
}

abbrev pub AreDigits : Text → Type 0
AreDigits [] = Unit
AreDigits (c ∷ s) = (48 ≤ c) × (c ≤ 57) × AreDigits s

-- The number that decimal digits write, after those that wrote `n`.
unfoldable pub decimal : ℕ → Text → ℕ
decimal n [] = n
decimal n (c ∷ s) = decimal (n * 10 + (c - 48)) s

read_digits-decimal : (n : ℕ) (s : Text) → AreDigits s → read_digits n s ≡ (decimal n s, [])
unfolding read_digits decimal is_digit
read_digits-decimal n [] d = refl
read_digits-decimal n (c ∷ s) d =
    ground (arith, d.0, d.1, read_digits-decimal (n * 10 + (c - 48)) s d.2)

pub parse_int_digits :
    (limit c : ℕ) (s : Text)
    → AreDigits (c ∷ s)
    → decimal 0 (c ∷ s) < limit
    → parse_int limit (c ∷ s) ≡ value false (decimal 0 (c ∷ s)) []
unfolding parse_int is_space signed_part unsigned_part in_range is_digit
parse_int_digits limit c s d small =
    ground (arith, d.0, d.1, small, read_digits-decimal 0 (c ∷ s) d)

AreDigits-put_digits : (fuel n : ℕ) (acc : Text) → AreDigits acc → AreDigits (put_digits fuel n acc)
unfolding put_digits
AreDigits-put_digits zero n acc d = d
AreDigits-put_digits (suc fuel) n acc d = elim (Bool-cases (ltb n 10)) [
  | inl e ↦ rw e (omega arith, ground arith, d)
  | inr e ↦
      rw e (AreDigits-put_digits fuel (n / 10) ((48 + n % 10) ∷ acc) (omega arith, omega arith, d))
]

decimal-put_digits :
    (fuel n : ℕ) (acc : Text) → n < fuel → decimal 0 (put_digits fuel n acc) ≡ decimal n acc
unfolding put_digits decimal
decimal-put_digits zero n acc h = absurd (omega arith)
decimal-put_digits (suc fuel) n acc h = elim (Bool-cases (ltb n 10)) [
  | inl e ↦ rw e (ap (λ m. decimal m acc) (last n))
  | inr e ↦ rw e (
      decimal-put_digits fuel (n / 10) ((48 + n % 10) ∷ acc) (ground arith)
      ∙ ap (λ m. decimal m acc) (split n))
]
  where
    last : (m : ℕ) → 0 * 10 + (48 + m - 48) ≡ m
    last m = omega arith

    split : (m : ℕ) → m / 10 * 10 + (48 + m % 10 - 48) ≡ m
    split m = omega arith

put_digits-ne-nil : (fuel n : ℕ) (acc : Text) → acc ≢ [] → put_digits fuel n acc ≢ []
unfolding put_digits
put_digits-ne-nil zero n acc h = h
put_digits-ne-nil (suc fuel) n acc h = elim (Bool-cases (ltb n 10)) [
  | inl e ↦ rw e (λ f. absurd (cc f))
  | inr e ↦ rw e (put_digits-ne-nil fuel (n / 10) ((48 + n % 10) ∷ acc) (λ f. absurd (cc f)))
]

to_string-ne-nil : (n : ℕ) → to_string n ≢ []
unfolding to_string put_digits
to_string-ne-nil n = elim (Bool-cases (ltb n 10)) [
  | inl e ↦ rw e (λ f. absurd (cc f))
  | inr e ↦ rw e (put_digits-ne-nil n (n / 10) ((48 + n % 10) ∷ []) (λ f. absurd (cc f)))
]

cons_of_ne_nil : (t : Text) → t ≢ [] → (c : ℕ) × (s : Text) × (t ≡ c ∷ s)
cons_of_ne_nil [] h = absurd (h refl)
cons_of_ne_nil (c ∷ s) h = (c, s, refl)

pub AreDigits-to_string : (n : ℕ) → AreDigits (to_string n)
unfolding to_string
AreDigits-to_string n = AreDigits-put_digits (suc n) n [] tt

pub decimal-to_string : (n : ℕ) → decimal 0 (to_string n) ≡ n
unfolding to_string decimal
decimal-to_string n = decimal-put_digits (suc n) n [] (omega arith)

-- `to_string` writes digits, at least one.
pub to_string_digits :
    (n : ℕ)
    → (c : ℕ) × (s : Text) × (to_string n ≡ c ∷ s) × AreDigits (c ∷ s) × (decimal 0 (c ∷ s) ≡ n)
to_string_digits n =
    let (c, s, e) = cons_of_ne_nil (to_string n) (to_string-ne-nil n) in
    (
      c,
      s,
      e,
      subst AreDigits e (AreDigits-to_string n),
      ap (decimal 0) (sym e) ∙ decimal-to_string n,
    )

-- A number that fits is read back from what `to_string` writes, to the last digit.
pub parse_int-to_string :
    (limit n : ℕ) → n < limit → parse_int limit (to_string n) ≡ value false n []
parse_int-to_string limit n h =
    let (c, s, e, d, v) = to_string_digits n in
    rw e (parse_int_digits limit c s d (omega (arith, v, h)) ∙ ap (λ m. value false m []) v)

-- A value that is not negative is below the limit.
abbrev pub Fits : ℕ → Parsed → Type 0
Fits limit (value true n rest) = Unit
Fits limit (value false n rest) = n < limit
Fits limit invalid_argument = Unit
Fits limit out_of_range = Unit

in_range-Fits :
    (limit : ℕ) (negative : Bool) (d : ℕ × Text) → Fits limit (in_range limit negative d)
unfolding in_range
in_range-Fits limit true (n, rest) = elim (Bool-cases (leb n limit)) [
  | inl e ↦ rw e tt
  | inr e ↦ rw e tt
]
in_range-Fits limit false (n, rest) = elim (Bool-cases (ltb n limit)) [
  | inl e ↦ rw e (ground arith)
  | inr e ↦ rw e tt
]

if-Fits :
    (limit : ℕ) (b : Bool) (p q : Parsed)
    → Fits limit p
    → Fits limit q
    → Fits limit (if b then p else q)
if-Fits limit true p q a b = a
if-Fits limit false p q a b = b

unsigned_part-Fits :
    (limit : ℕ) (negative : Bool) (s : Text) → Fits limit (unsigned_part limit negative s)
unfolding unsigned_part
unsigned_part-Fits limit negative [] = tt
unsigned_part-Fits limit negative (c ∷ s) =
    if-Fits limit (is_digit c) _ _ (in_range-Fits limit negative (read_digits 0 (c ∷ s))) tt

signed_part-Fits : (limit : ℕ) (s : Text) → Fits limit (signed_part limit s)
unfolding signed_part
signed_part-Fits limit [] = tt
signed_part-Fits limit (c ∷ s) = if-Fits limit (c == b'-') _ _ (unsigned_part-Fits limit true s) (
    if-Fits limit (c == b'+') _ _ (unsigned_part-Fits limit false s)
      (unsigned_part-Fits limit false (c ∷ s)))

pub parse_int-Fits : (limit : ℕ) (s : Text) → Fits limit (parse_int limit s)
unfolding parse_int
parse_int-Fits limit [] = tt
parse_int-Fits limit (c ∷ s) =
    if-Fits limit (is_space c) _ _ (parse_int-Fits limit s) (signed_part-Fits limit (c ∷ s))
