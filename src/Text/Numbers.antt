-- ===== src/Text/Numbers.antt =====
-- `std::stoi`, `std::stoll` and `std::to_string`.
pub mod Digits
use cccloud.Prelude.{
  ℕ, zero, suc, ◌+◌, ◌-◌, ◌*◌, ◌/◌, ◌%◌, ◌^◌, ◌<◌, ◌≤◌, ◌≡◌, ◌≢◌, refl, sym, ap, ◌∙◌, subst, ◌⊎◌,
  inl, inr, Bool, true, false, not, ◌&&◌, ◌||◌, List, [], ◌∷◌, ◌++◌, map, Option, none, some, arith,
  length, length-append, if◌then◌else◌, ◌==◌, ltb, leb, Bool-cases, Option-cases, u64,
}
use cccloud.Text.{Text}

-- White space, a sign, digits as long as there are any; an exception where there is no digit, and
-- where the value does not fit. The text is what stands after the digits, from `pos` on.
pub data Parsed : Type 0 where
  value : (negative : Bool) → ℕ → Text → Parsed
  invalid_argument : Parsed
  out_of_range : Parsed

pub is_space : ℕ → Bool
is_space c = c == 32 || (leb 9 c && leb c 13)

pub is_digit : ℕ → Bool
is_digit c = leb 48 c && leb c 57

pub read_digits : ℕ → Text → ℕ × Text
unfolding is_digit
read_digits n [] = (n, [])
read_digits n (c ∷ s) =
    let rest = read_digits (n * 10 + (c - 48)) s in if is_digit c then rest else (n, c ∷ s)

-- The numbers from `-limit` to `limit - 1`.
pub in_range : ℕ → Bool → ℕ × Text → Parsed
in_range limit true (n, rest) = if leb n limit then value true n rest else out_of_range
in_range limit false (n, rest) = if ltb n limit then value false n rest else out_of_range

pub unsigned_part : ℕ → Bool → Text → Parsed
unfolding read_digits in_range
unsigned_part limit negative [] = invalid_argument
unsigned_part limit negative (c ∷ s) =
    if is_digit c then in_range limit negative (read_digits 0 (c ∷ s)) else invalid_argument

pub signed_part : ℕ → Text → Parsed
unfolding unsigned_part
signed_part limit [] = invalid_argument
signed_part limit (c ∷ s) =
    if c == b'-'
    then unsigned_part limit true s
    else (if c == b'+' then unsigned_part limit false s else unsigned_part limit false (c ∷ s))

pub parse_int : ℕ → Text → Parsed
unfolding signed_part is_space
parse_int limit [] = invalid_argument
parse_int limit (c ∷ s) =
    let rest = parse_int limit s in if is_space c then rest else signed_part limit (c ∷ s)

unfoldable pub stoi : Text → Parsed
unfolding parse_int
stoi = parse_int (2 ^ 31)

unfoldable pub stoll : Text → Parsed
unfolding parse_int
stoll = parse_int (2 ^ 63)

-- The digits of a number before a text, the last digit first; a digit takes one unit of fuel.
pub put_digits : ℕ → ℕ → Text → Text
put_digits zero n acc = acc
put_digits (suc fuel) n acc =
    let rest = put_digits fuel (n / 10) ((48 + n % 10) ∷ acc) in
    if ltb n 10 then (48 + n) ∷ acc else rest

unfoldable pub to_string : ℕ → Text
unfolding put_digits
to_string n = put_digits (suc n) n []
