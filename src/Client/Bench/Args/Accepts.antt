-- ===== src/Client/Bench/Args/Accepts.antt =====
-- Command lines that `parseArgs` accepts, and what it makes of them.
use cccloud.Prelude.{◌∷◌, List, ℕ, ◌^◌, ◌<◌, ◌≡◌, refl, false, [], ◌++◌, some, arith}
use cccloud.Text.{codes}
use cccloud.Text.Numbers.{value, stoi, stoll, to_string}
use cccloud.Text.Numbers.Digits.{parse_int-to_string}
use cccloud.Client.Bench.Args.{Text, parse_args, Settings, positive, starts_with, parse_arg}

positive_of : (n : ℕ) → 0 < n → positive (value false n []) ≡ some n
unfolding positive
positive_of n h = ground arith

stoi-to_string : (n : ℕ) → n < 2 ^ 31 → stoi (to_string n) ≡ value false n []
unfolding stoi
stoi-to_string n h = parse_int-to_string (2 ^ 31) n h

stoll-to_string : (n : ℕ) → n < 2 ^ 63 → stoll (to_string n) ≡ value false n []
unfolding stoll
stoll-to_string n h = parse_int-to_string (2 ^ 63) n h

concurrency_arg :
    (n : ℕ) (s : Settings)
    → 0 < n
    → n < 2 ^ 31
    → parse_arg (codes "--concurrency=" ++ to_string n) s ≡ some (record s { concurrency = n })
unfolding parse_arg starts_with
concurrency_arg n s pos fits = rw (stoi-to_string n fits, positive_of n pos) refl

chunks_arg :
    (n : ℕ) (s : Settings)
    → 0 < n
    → n < 2 ^ 31
    → parse_arg (codes "--chunks=" ++ to_string n) s ≡ some (record s { chunks = n })
unfolding parse_arg starts_with
chunks_arg n s pos fits = rw (stoi-to_string n fits, positive_of n pos) refl

chunk_size_arg :
    (n : ℕ) (s : Settings)
    → 0 < n
    → n < 2 ^ 63
    → parse_arg (codes "--chunk_size=" ++ to_string n) s ≡ some (record s { chunk_size = n })
unfolding parse_arg starts_with
chunk_size_arg n s pos fits = rw (stoll-to_string n fits, positive_of n pos) refl

abbrev pub command_line : Settings → List Text
command_line s =
    (codes "--concurrency=" ++ to_string s.concurrency)
    ∷ (codes "--chunks=" ++ to_string s.chunks)
    ∷ (codes "--chunk_size=" ++ to_string s.chunk_size)
    ∷ []

-- Positive numbers that fit an `int`, an `int` and a `long long`.
pub record IsUsable (s : Settings) : Type 0 where
  pub concurrency_pos : 0 < s.concurrency
  pub concurrency_fits : s.concurrency < 2 ^ 31
  pub chunks_pos : 0 < s.chunks
  pub chunks_fits : s.chunks < 2 ^ 31
  pub chunk_size_pos : 0 < s.chunk_size
  pub chunk_size_fits : s.chunk_size < 2 ^ 63

-- Settings that are positive and fit their types are read back from the command line that gives
-- them, whatever the settings were before.
pub parse_args-command_line :
    (s before : Settings) → IsUsable s → parse_args (command_line s) before ≡ some s
unfolding parse_args
parse_args-command_line s before ok =
    rw
      (
        concurrency_arg s.concurrency before ok.concurrency_pos ok.concurrency_fits,
        chunks_arg s.chunks (record before { concurrency = s.concurrency }) ok.chunks_pos
            ok.chunks_fits,
        chunk_size_arg s.chunk_size
            (record before { concurrency = s.concurrency; chunks = s.chunks }) ok.chunk_size_pos
            ok.chunk_size_fits,
      )
      refl
