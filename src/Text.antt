-- ===== src/Text.antt =====
-- `std::string` as a list of bytes, with the operations that the program uses.
pub mod Numbers
use Prim.Native.Char.{code}
use Prim.Native.String.{String}
use cccloud.Prelude.{
  ◌∙◌, ◌+◌, ℕ, zero, suc, ◌≡◌, ◌≢◌, refl, Bool, true, false, List, [], ◌∷◌, ◌++◌, Option, none,
  some, arith, length, if◌then◌else◌, ◌==◌, ap,
}

abbrev pub Text : Type 0
Text = List ℕ

-- The bytes of an ASCII literal.
abbrev pub codes : String → Text
codes String.[] = []
codes (String.◌∷◌ c s) = code c ∷ codes s

unfoldable pub take : ℕ → Text → Text
take zero s = []
take (suc n) [] = []
take (suc n) (c ∷ s) = c ∷ take n s

unfoldable pub drop : ℕ → Text → Text
drop zero s = s
drop (suc n) [] = []
drop (suc n) (c ∷ s) = drop n s

abbrev pub shifted : Option ℕ → Option ℕ
shifted none = none
shifted (some n) = some (suc n)

-- `find(c)`; `npos` is `none`.
unfoldable pub find : ℕ → Text → Option ℕ
find c [] = none
find c (d ∷ s) = let later = shifted (find c s) in if d == c then some 0 else later

abbrev pub or_here : Bool → Option ℕ → Option ℕ
or_here here (some n) = some (suc n)
or_here true none = some 0
or_here false none = none

-- `rfind(c)`: the last occurrence.
unfoldable pub rfind : ℕ → Text → Option ℕ
rfind c [] = none
rfind c (d ∷ s) = or_here (d == c) (rfind c s)

-- `substr(pos, count)`.
unfoldable pub substr : ℕ → ℕ → Text → Text
unfolding take drop
substr pos count s = take count (drop pos s)

abbrev pub Without : ℕ → Text → Type 0
Without c [] = Unit
Without c (d ∷ s) = (d ≢ c) × Without c s

pub find-append : (c : ℕ) (s t : Text) → Without c s → find c (s ++ (c ∷ t)) ≡ some (length s)
unfolding find
find-append c [] t w = ground arith
find-append c (d ∷ s) t w = ground (arith, find-append c s t w.1)

rfind-none : (c : ℕ) (t : Text) → Without c t → rfind c t ≡ none
unfolding rfind
rfind-none c [] w = refl
rfind-none c (d ∷ t) w = ground (arith, rfind-none c t w.1)

pub rfind-append : (c : ℕ) (s t : Text) → Without c t → rfind c (s ++ (c ∷ t)) ≡ some (length s)
unfolding rfind
rfind-append c [] t w = ground (arith, rfind-none c t w)
rfind-append c (d ∷ s) t w = ground (arith, rfind-append c s t w)

pub take-append : (s t : Text) → take (length s) (s ++ t) ≡ s
unfolding take
take-append [] t = refl
take-append (c ∷ s) t = ap (λ u. c ∷ u) (take-append s t)

pub drop-append : (s t : Text) → drop (length s) (s ++ t) ≡ t
unfolding drop
drop-append [] t = refl
drop-append (c ∷ s) t = drop-append s t

-- What follows a prefix and one more byte.
pub drop-append_suc : (s : Text) (c : ℕ) (t : Text) → drop (length s + 1) (s ++ (c ∷ t)) ≡ t
unfolding drop
drop-append_suc [] c t = refl
drop-append_suc (d ∷ s) c t =
    ap (λ n. drop n (d ∷ (s ++ (c ∷ t)))) (n_suc (length s)) ∙ drop-append_suc s c t
  where
    n_suc : (n : ℕ) → suc n + 1 ≡ suc (n + 1)
    n_suc n = omega arith
