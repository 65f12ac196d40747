-- ===== src/Stream.antt =====
-- `std::ifstream`: reading an open file by pieces, as the server and the clients do.
pub mod Reading
pub mod Loop
use cccloud.Prelude.{ℕ, Bool, true, false, ◌||◌, [], Option, none, some, if◌then◌else◌, length, ltb}
use cccloud.Text.{Text, take, drop}

-- An open `std::ifstream`: what it has not read yet, and `eof()`, `fail()` and `bad()`.
pub record Stream : Type 0 where
  pub rest : Text
  pub eof : Bool
  pub failed : Bool
  pub bad : Bool

-- `read(buffer, size)` and the bytes that `gcount()` then counts.
unfoldable pub read_some : ℕ → Option ℕ → Stream → Text × Stream
read_some size none s = (
  take size s.rest,
  record s {
    rest = drop size s.rest;
    eof = ltb (length s.rest) size;
    failed = ltb (length s.rest) size;
  },
)
read_some size (some n) s =
    (take n (take size s.rest), record s { rest = drop n s.rest; failed = true; bad = true })

-- A stream that is not good reads nothing.
unfoldable pub read : ℕ → Option ℕ → Stream → Text × Stream
unfolding read_some
read size breaks s =
    if s.eof || (s.failed || s.bad)
    then ([], record s { failed = true })
    else read_some size breaks s

unfoldable pub open_stream : Text → Stream
open_stream content = record { rest = content; eof = false; failed = false; bad = false }
