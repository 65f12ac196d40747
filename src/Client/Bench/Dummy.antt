-- ===== src/Client/Bench/Dummy.antt =====
-- client/async_client.cc: `generate_dummy_data`.
pub mod Repeats
use cccloud.Prelude.{
  get_or, ◌%◌, ℕ, zero, suc, ◌+◌, ◌-◌, ◌*◌, ◌^◌, ◌<◌, ◌≤◌, ◌≡◌, ◌≢◌, refl, sym, ap, ◌∙◌, subst, ◌⊎◌,
  inl, inr, Bool, true, false, not, ◌&&◌, ◌||◌, List, [], ◌∷◌, ◌++◌, map, Option, none, some, arith,
  length, length-append, if◌then◌else◌, if_true, if_false, ◌==◌, ltb, leb, Bool-cases, Option-cases,
  u64,
}
use cccloud.Text.{Text, codes, take}

pub pattern : Text
pattern =
    codes
      "0123456789ABCDEFGHIJKLMNOPQRSTUVWXYZabcdefghijklmnopqrstuvwxyz~!@#$%^&*()_+-={}[]|;:',./?><"

-- `pattern_len`.
abbrev pub pattern_len : ℕ
pattern_len = 91

pub before : Text → Option Text → Option Text
before piece none = none
before piece (some rest) = some (piece ++ rest)

-- The loop: what it writes from `offset` on, piece by piece. Fuel counts its turns; `none` is a loop
-- that runs on.
pub fill : ℕ → ℕ → ℕ → Option Text
unfolding pattern take before
fill zero offset size = if ltb offset size then none else some []
fill (suc fuel) offset size =
    let copy_len = if ltb (size - offset) pattern_len then size - offset else pattern_len in
    let rest = fill fuel (offset + copy_len) size in
    if ltb offset size then before (take copy_len pattern) rest else some []

pub generate_dummy_data : ℕ → Option Text
unfolding fill
generate_dummy_data size = fill size 0 size
