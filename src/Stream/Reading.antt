-- ===== src/Stream/Reading.antt =====
-- Reading a stream to its end.
use cccloud.Prelude.{
  ◌∙◌, inr, inl, none, ltb, Bool-cases, ℕ, zero, suc, ◌<◌, ◌≤◌, ◌≡◌, refl, true, false, [], ◌∷◌,
  ◌++◌, arith, length, ap,
}
use cccloud.Text.{Text, take, drop}
use cccloud.Stream.{read_some, read, Stream}

pub take_drop : (n : ℕ) (s : Text) → take n s ++ drop n s ≡ s
unfolding take drop
take_drop zero s = refl
take_drop (suc n) [] = refl
take_drop (suc n) (c ∷ s) = ap (λ t. c ∷ t) (take_drop n s)

pub length-take_le : (n : ℕ) (s : Text) → length (take n s) ≤ n
unfolding take
length-take_le zero s = omega arith
length-take_le (suc n) [] = omega arith
length-take_le (suc n) (c ∷ s) = omega (arith, length-take_le n s)

pub length-drop_le : (n : ℕ) (s : Text) → length (drop n s) ≤ length s
unfolding drop
length-drop_le zero s = omega arith
length-drop_le (suc n) [] = omega arith
length-drop_le (suc n) (c ∷ s) = omega (arith, length-drop_le n s)

drop_all : (n : ℕ) (s : Text) → length s < n → drop n s ≡ []
unfolding drop
drop_all zero s h = absurd (omega (arith, h))
drop_all (suc n) [] h = refl
drop_all (suc n) (c ∷ s) h = drop_all n s (omega (arith, h))

-- A stream that no read has broken, and that is at its end only where nothing is left.
pub record IsSound (s : Stream) : Type 0 where
  pub whole : s.bad ≡ false
  pub same_flags : s.failed ≡ s.eof
  pub finished : s.eof ≡ true → s.rest ≡ []

-- A read at the end gives nothing, and the stream says so.
pub read_at_end :
    (size : ℕ) (s : Stream)
    → 0 < size
    → IsSound s
    → s.rest ≡ []
    → ((read size none s).0 ≡ [])
      × ((read size none s).1.eof ≡ true)
      × ((read size none s).1.failed ≡ true)
unfolding read read_some take
read_at_end size s pos ok e = elim (Bool-cases s.eof) [
  | inl at ↦ rw at (refl, refl, refl)
  | inr more ↦
      rw (more, ok.same_flags ∙ more, ok.whole, e) (take_nil size, short size pos, short size pos)
]
  where
    take_nil : (n : ℕ) → take n [] ≡ []
    take_nil zero = refl
    take_nil (suc n) = refl

    short : (n : ℕ) → 0 < n → ltb 0 n ≡ true
    short n h = ground arith

-- A read before the end gives the next bytes, at least one.
pub read_more :
    (size : ℕ) (s : Stream) (c : ℕ) (t : Text)
    → IsSound s
    → s.rest ≡ c ∷ t
    → read (suc size) none s ≡ (
      c ∷ take size t,
      record s {
        rest = drop size t;
        eof = ltb (length (c ∷ t)) (suc size);
        failed = ltb (length (c ∷ t)) (suc size);
      },
    )
unfolding read read_some take drop
read_more size s c t ok e = rw (good, ok.same_flags ∙ good, ok.whole, e) refl
  where
    good : s.eof ≡ false
    good = elim (Bool-cases s.eof) [ inl at ↦ absurd (cc (ok.finished at, e)) | inr more ↦ more ]

pub read_more-IsSound :
    (size : ℕ) (s : Stream) (c : ℕ) (t : Text)
    → IsSound s
    → IsSound (record s {
      rest = drop size t;
      eof = ltb (length (c ∷ t)) (suc size);
      failed = ltb (length (c ∷ t)) (suc size);
    })
read_more-IsSound size s c t ok = record {
  whole = ok.whole;
  same_flags = refl;
  finished = λ h. drop_all size t (ground (arith, h));
}
