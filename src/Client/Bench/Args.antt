-- ===== src/Client/Bench/Args.antt =====
-- client/async_client.cc: `parseSingle` and `parseArgs`.
pub mod Accepts
pub mod Bounds
use cccloud.Prelude.{
  ℕ, zero, suc, ◌+◌, ◌-◌, ◌*◌, ◌^◌, ◌<◌, ◌≤◌, ◌≡◌, ◌≢◌, refl, sym, ap, ◌∙◌, subst, ◌⊎◌, inl, inr,
  Bool, true, false, not, ◌&&◌, ◌||◌, List, [], ◌∷◌, ◌++◌, map, Option, none, some, arith, length,
  length-append, if◌then◌else◌, if_true, if_false, ◌==◌, ltb, leb, Bool-cases, Option-cases, u64,
}
use cccloud.Text.{Text, codes, take, drop}
use cccloud.Text.Numbers.{Parsed, value, invalid_argument, out_of_range, stoi, stoll}
use cccloud.Server.{same}

-- The settings, which are globals of the program. They are `int` and `long long`; a value below one
-- is never stored in a run that goes on.
pub record Settings : Type 0 where
  pub concurrency : ℕ
  pub chunks : ℕ
  pub chunk_size : ℕ

abbrev pub defaults : Settings
defaults = record { concurrency = 128; chunks = 100; chunk_size = 40960 }

-- A value and the test that it is positive; `none` is an exception, of `parseSingle` too: one for no
-- number, a number out of range, or characters that stand after it.
pub positive : Parsed → Option ℕ
positive (value negative n []) = if negative || n == 0 then none else some n
positive (value negative n (c ∷ rest)) = none
positive invalid_argument = none
positive out_of_range = none

-- `rfind(prefix, 0) == 0`.
pub starts_with : Text → Text → Bool
unfolding take
starts_with prefix arg = same (take (length prefix) arg) prefix

pub set_concurrency : Option ℕ → Settings → Option Settings
set_concurrency none s = none
set_concurrency (some n) s = some (record s { concurrency = n })

pub set_chunks : Option ℕ → Settings → Option Settings
set_chunks none s = none
set_chunks (some n) s = some (record s { chunks = n })

pub set_chunk_size : Option ℕ → Settings → Option Settings
set_chunk_size none s = none
set_chunk_size (some n) s = some (record s { chunk_size = n })

-- One argument; `none` is the result false of `parseArgs`, after which the program ends.
pub parse_arg : Text → Settings → Option Settings
unfolding starts_with positive drop set_concurrency set_chunks set_chunk_size stoi stoll
parse_arg arg s =
    if starts_with (codes "--concurrency=") arg
    then set_concurrency (positive (stoi (drop 14 arg))) s
    else (if starts_with (codes "--chunks=") arg
        then set_chunks (positive (stoi (drop 9 arg))) s
        else (if starts_with (codes "--chunk_size=") arg
            then set_chunk_size (positive (stoll (drop 13 arg))) s
            else none))

pub parse_rest : (Settings → Option Settings) → Option Settings → Option Settings
parse_rest parse none = none
parse_rest parse (some s) = parse s

pub parse_args : List Text → Settings → Option Settings
unfolding parse_arg parse_rest
parse_args [] s = some s
parse_args (arg ∷ args) s = parse_rest (parse_args args) (parse_arg arg s)
