-- ===== src/Client/Bench/Dummy/Repeats.antt =====
-- Dummy data against the pattern repeated without end.
use cccloud.Prelude.{
  subst, false, if_false, Bool-cases, ltb, some, get_or, ◌%◌, ℕ, zero, suc, ◌+◌, ◌-◌, ◌<◌, ◌≤◌, ◌≡◌,
  refl, sym, ap, ◌∙◌, ◌⊎◌, inl, inr, [], ◌∷◌, ◌++◌, arith, length, length-append,
}
use cccloud.Text.{Text, take}
use cccloud.Client.Bench.Dummy.{before, fill, generate_dummy_data, pattern, pattern_len}

length-pattern : length pattern ≡ pattern_len
unfolding pattern
length-pattern = refl

length-take : (n : ℕ) (s : Text) → n ≤ length s → length (take n s) ≡ n
unfolding take
length-take zero s h = refl
length-take (suc n) [] h = absurd (omega arith)
length-take (suc n) (c ∷ s) h = ap suc (length-take n s (omega arith))

get_or-take : (n i : ℕ) (s : Text) → i < n → get_or (take n s) i 0 ≡ get_or s i 0
unfolding take
get_or-take zero i s h = absurd (omega arith)
get_or-take (suc n) i [] h = refl
get_or-take (suc n) zero (c ∷ s) h = refl
get_or-take (suc n) (suc i) (c ∷ s) h = get_or-take n i s (omega arith)

get_or-append_left : (s t : Text) (i : ℕ) → i < length s → get_or (s ++ t) i 0 ≡ get_or s i 0
get_or-append_left [] t i h = absurd (omega arith)
get_or-append_left (c ∷ s) t zero h = refl
get_or-append_left (c ∷ s) t (suc i) h = get_or-append_left s t i (omega arith)

get_or-append_right :
    (s t : Text) (i : ℕ) → length s ≤ i → get_or (s ++ t) i 0 ≡ get_or t (i - length s) 0
get_or-append_right [] t i h = ap (λ j. get_or t j 0) (omega arith)
get_or-append_right (c ∷ s) t zero h = absurd (omega arith)
get_or-append_right (c ∷ s) t (suc i) h =
    get_or-append_right s t i (omega arith) ∙ ap (λ j. get_or t j 0) (omega arith)

-- A text of `n` bytes that goes round and round the pattern.
pub record Repeats (n : ℕ) (s : Text) : Type 0 where
  pub size : length s ≡ n
  pub bytes : (i : ℕ) → i < n → get_or s i 0 ≡ get_or pattern (i % pattern_len) 0

small : (i : ℕ) → i < 91 → i % 91 ≡ i
small i h = omega arith

past : (i : ℕ) → 91 ≤ i → (i - 91) % 91 ≡ i % 91
past i h = omega arith

last_piece : (n : ℕ) → n ≤ pattern_len → Repeats n (take n pattern ++ [])
last_piece n h = record {
  size = omega (
    arith,
    length-append (take n pattern) [],
    length-take n pattern (omega (arith, length-pattern)),
  );
  bytes = λ i below.
      get_or-append_left (take n pattern) [] i
        (omega (arith, length-take n pattern (omega (arith, length-pattern)), below))
      ∙ get_or-take n i pattern below
      ∙ ap (λ j. get_or pattern j 0) (sym (small i (omega arith)));
}

whole_pattern : length (take pattern_len pattern) ≡ 91
whole_pattern = length-take pattern_len pattern (omega (arith, length-pattern))

next_byte :
    (n : ℕ) (s : Text)
    → Repeats n s
    → (i : ℕ) → i < pattern_len + n
    → (i < 91) ⊎ (91 ≤ i)
    → get_or (take pattern_len pattern ++ s) i 0 ≡ get_or pattern (i % pattern_len) 0
next_byte n s r i below (inl low) =
    get_or-append_left (take pattern_len pattern) s i (omega (arith, whole_pattern, low))
    ∙ get_or-take 91 i pattern low
    ∙ ap (λ j. get_or pattern j 0) (sym (small i low))
next_byte n s r i below (inr high) =
    get_or-append_right (take pattern_len pattern) s i (omega (arith, whole_pattern, high))
    ∙ ap (λ k. get_or s (i - k) 0) whole_pattern
    ∙ r.bytes (i - 91) (omega (arith, below, high))
    ∙ ap (λ j. get_or pattern j 0) (past i high)

low_or_high : (i : ℕ) → (i < 91) ⊎ (91 ≤ i)
low_or_high i = omega arith

next_piece :
    (n : ℕ) (s : Text) → Repeats n s → Repeats (pattern_len + n) (take pattern_len pattern ++ s)
next_piece n s r = record {
  size = omega (arith, length-append (take pattern_len pattern) s, whole_pattern, r.size);
  bytes = λ i below. next_byte n s r i below (low_or_high i);
}

past_end : (a b : ℕ) → b ≤ a → ltb a b ≡ false
past_end a b h = ground arith

fill_past_end : (fuel offset size : ℕ) → size ≤ offset → fill fuel offset size ≡ some []
unfolding fill
fill_past_end zero offset size h = if_false (ltb offset size) _ _ (past_end offset size h)
fill_past_end (suc fuel) offset size h = if_false (ltb offset size) _ _ (past_end offset size h)

fill-Repeats :
    (fuel offset size : ℕ)
    → size - offset ≤ fuel
    → (s : Text) × (fill fuel offset size ≡ some s) × Repeats (size - offset) s
unfolding fill before
fill-Repeats zero offset size h = (
  [],
  fill_past_end zero offset size (omega (arith, h)),
  record { size = omega (arith, h); bytes = λ i below. absurd (omega (arith, h, below)) },
)
fill-Repeats (suc fuel) offset size h = elim (Bool-cases (ltb offset size)) [
  | inr e ↦ (
    [],
    fill_past_end (suc fuel) offset size (ground (arith, e)),
    record { size = ground (arith, e); bytes = λ i below. absurd (ground (arith, e, below)) },
  )
  | inl e ↦ elim (Bool-cases (ltb (size - offset) pattern_len)) [
    | inl last ↦ (
      take (size - offset) pattern ++ [],
      rw (e, last, fill_past_end fuel (offset + (size - offset)) size (omega arith)) refl,
      last_piece (size - offset) (ground (arith, last)),
    )
    | inr full ↦
        (let (s, run, r) = fill-Repeats fuel (offset + pattern_len) size (omega (arith, h)) in
          (
            take pattern_len pattern ++ s,
            rw (e, full, run) refl,
            subst (λ n. Repeats n (take pattern_len pattern ++ s)) (ground (arith, full))
                (next_piece (size - (offset + pattern_len)) s r),
          ))
  ]
]

-- Of every size the dummy data has that many bytes, and they are those of the pattern repeated; the
-- loop ends.
pub generate_dummy_data-Repeats :
    (size : ℕ) → (s : Text) × (generate_dummy_data size ≡ some s) × Repeats size s
unfolding generate_dummy_data
generate_dummy_data-Repeats size =
    let (s, run, r) = fill-Repeats size 0 size (omega arith) in
    (s, run, subst (λ n. Repeats n s) (minus_zero size) r)
  where
    minus_zero : (n : ℕ) → n - 0 ≡ n
    minus_zero n = omega arith
