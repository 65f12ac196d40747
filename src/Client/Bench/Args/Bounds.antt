-- ===== src/Client/Bench/Args/Bounds.antt =====
-- The settings that `parseArgs` lets through.
use cccloud.Prelude.{
  ℕ, ◌^◌, ◌<◌, ◌≡◌, subst, inl, inr, Bool, true, false, List, [], ◌∷◌, Option, none, some, arith,
  if◌then◌else◌, ◌==◌, Bool-cases,
}
use cccloud.Text.{Text, codes, drop}
use cccloud.Text.Numbers.{Parsed, value, invalid_argument, out_of_range, stoi, stoll}
use cccloud.Text.Numbers.Digits.{Fits, parse_int-Fits}
use cccloud.Client.Bench.Args.{
  Settings, defaults, positive, starts_with, parse_arg, parse_args, parse_rest, set_concurrency,
  set_chunks, set_chunk_size,
}
use cccloud.Client.Bench.Args.Accepts.{IsUsable}

-- What may be stored: a positive number below the limit.
abbrev IsSmall : ℕ → Option ℕ → Type 0
IsSmall limit none = Unit
IsSmall limit (some n) = (0 < n) × (n < limit)

positive-IsSmall : (limit : ℕ) (p : Parsed) → Fits limit p → IsSmall limit (positive p)
unfolding positive
positive-IsSmall limit (value true n []) h = tt
positive-IsSmall limit (value false n []) h = elim (Bool-cases (n == 0)) [
  | inl e ↦ rw e tt
  | inr e ↦ rw e (ground arith, h)
]
positive-IsSmall limit (value negative n (c ∷ rest)) h = tt
positive-IsSmall limit invalid_argument h = tt
positive-IsSmall limit out_of_range h = tt

abbrev AllUsable : Option Settings → Type 0
AllUsable none = Unit
AllUsable (some s) = IsUsable s

concurrency-AllUsable :
    (o : Option ℕ) (s : Settings)
    → IsSmall (2 ^ 31) o
    → IsUsable s
    → AllUsable (set_concurrency o s)
unfolding set_concurrency
concurrency-AllUsable none s h ok = tt
concurrency-AllUsable (some n) s h ok = omega arith

chunks-AllUsable :
    (o : Option ℕ) (s : Settings) → IsSmall (2 ^ 31) o → IsUsable s → AllUsable (set_chunks o s)
unfolding set_chunks
chunks-AllUsable none s h ok = tt
chunks-AllUsable (some n) s h ok = omega arith

chunk_size-AllUsable :
    (o : Option ℕ) (s : Settings) → IsSmall (2 ^ 63) o → IsUsable s → AllUsable (set_chunk_size o s)
unfolding set_chunk_size
chunk_size-AllUsable none s h ok = tt
chunk_size-AllUsable (some n) s h ok = omega arith

if-AllUsable :
    (b : Bool) (o p : Option Settings) → AllUsable o → AllUsable p → AllUsable (if b then o else p)
if-AllUsable true o p a b = a
if-AllUsable false o p a b = b

parse_arg-AllUsable : (arg : Text) (s : Settings) → IsUsable s → AllUsable (parse_arg arg s)
unfolding parse_arg stoi stoll
parse_arg-AllUsable arg s ok =
    if-AllUsable (starts_with (codes "--concurrency=") arg) _ _
      (concurrency-AllUsable (positive (stoi (drop 14 arg))) s
        (positive-IsSmall (2 ^ 31) (stoi (drop 14 arg)) (parse_int-Fits (2 ^ 31) (drop 14 arg))) ok)
      (if-AllUsable (starts_with (codes "--chunks=") arg) _ _
        (chunks-AllUsable (positive (stoi (drop 9 arg))) s
          (positive-IsSmall (2 ^ 31) (stoi (drop 9 arg)) (parse_int-Fits (2 ^ 31) (drop 9 arg))) ok)
        (if-AllUsable (starts_with (codes "--chunk_size=") arg) _ _
          (chunk_size-AllUsable (positive (stoll (drop 13 arg))) s
            (positive-IsSmall (2 ^ 63) (stoll (drop 13 arg))
              (parse_int-Fits (2 ^ 63) (drop 13 arg)))
            ok)
          tt))

args-AllUsable : (args : List Text) (s : Settings) → IsUsable s → AllUsable (parse_args args s)
unfolding parse_args
args-AllUsable [] s ok = ok
args-AllUsable (arg ∷ args) s ok =
    rest (parse_arg arg s) (parse_arg-AllUsable arg s ok) (args-AllUsable args)
  where
    rest :
        (o : Option Settings)
        → AllUsable o
        → ((s : Settings) → IsUsable s → AllUsable (parse_args args s))
        → AllUsable (parse_rest (parse_args args) o)
    rest none u f = tt
    rest (some t) u f = f t u

-- Whatever the arguments are, from the defaults: where `parseArgs` succeeds, the settings are positive
-- and fit their types.
pub parse_args-IsUsable :
    (args : List Text) (s : Settings) → parse_args args defaults ≡ some s → IsUsable s
parse_args-IsUsable args s e = subst AllUsable e (args-AllUsable args defaults (omega arith))
