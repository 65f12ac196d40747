-- ===== src/Stream/Loop.antt =====
-- The loop `while (read(buffer, size) || gcount() > 0)` over a stream.
use mathlib.Core.List.{append-nil, append_assoc}
use cccloud.Prelude.{
  ℕ, zero, suc, ◌+◌, ◌<◌, ◌≤◌, ◌≡◌, refl, ap, ◌∙◌, subst, inl, inr, Bool, true, false, not, ◌||◌,
  [], ◌∷◌, ◌++◌, Option, none, some, arith, length, if◌then◌else◌, ltb, Bool-cases,
}
use cccloud.Text.{Text, take, drop}
use cccloud.Stream.{Stream, read, read_some}
use cccloud.Stream.Reading.{
  take_drop, length-take_le, length-drop_le, IsSound, read_at_end, read_more, read_more-IsSound,
}

pub is_empty : Text → Bool
is_empty [] = true
is_empty (c ∷ s) = false

-- The loop's condition, after a read.
unfoldable pub goes_on : Text → Stream → Bool
unfolding is_empty
goes_on bytes s = not (s.failed || s.bad) || not (is_empty bytes)

-- The body gives the new state, and whether it goes on; where it does not, the loop is left. The
-- read number `i` breaks off as `breaks i` says. Fuel counts the reads; `none` is a loop that runs on.
unfoldable pub for_pieces {ℓ} :
    {S : Type ℓ} → ℕ → (ℕ → Option ℕ) → (Text → S → S × Bool) → ℕ → ℕ → Stream → S → Option S
for_pieces size breaks body zero i s st = none
for_pieces size breaks body (suc fuel) i s st =
    let (bytes, s') = read size (breaks i) s in
    let (st', on) = body bytes st in
    let rest = for_pieces size breaks body fuel (i + 1) s' st' in
    if goes_on bytes s' then (if on then rest else some st') else some st

shrinks_whole :
    (size : ℕ) (rest : Text) (bad : Bool)
    → 0 < size
    → (not (ltb (length rest) size || bad) || not (is_empty (take size rest))) ≡ true
    → length (drop size rest) < length rest
unfolding is_empty take drop
shrinks_whole zero rest bad pos h = absurd (omega arith)
shrinks_whole (suc n) [] bad pos h = ground arith
shrinks_whole (suc n) (c ∷ t) bad pos h = omega (arith, length-drop_le n t)

shrinks_broken :
    (n size : ℕ) (rest : Text)
    → not (is_empty (take n (take size rest))) ≡ true
    → length (drop n rest) < length rest
unfolding is_empty take drop
shrinks_broken zero size rest h = absurd (cc)
shrinks_broken (suc n) zero rest h = absurd (cc)
shrinks_broken (suc n) (suc size) [] h = absurd (cc)
shrinks_broken (suc n) (suc size) (c ∷ t) h = omega (arith, length-drop_le n t)

read_some_shrinks :
    (size : ℕ) (breaks : Option ℕ) (s : Stream)
    → 0 < size
    → goes_on (read_some size breaks s).0 (read_some size breaks s).1 ≡ true
    → length (read_some size breaks s).1.rest < length s.rest
unfolding read_some goes_on
read_some_shrinks size none s pos h = shrinks_whole size s.rest s.bad pos h
read_some_shrinks size (some n) s pos h = shrinks_broken n size s.rest h

-- A read after which the loop goes on has taken something.
pub read_shrinks :
    (size : ℕ) (breaks : Option ℕ) (s : Stream)
    → 0 < size
    → goes_on (read size breaks s).0 (read size breaks s).1 ≡ true
    → length (read size breaks s).1.rest < length s.rest
unfolding read
read_shrinks size breaks s pos = go (s.eof || (s.failed || s.bad))
  where
    go :
        (b : Bool)
        → let r : Text × Stream =
            if b then ([], record s { failed = true }) else read_some size breaks s in
          goes_on r.0 r.1 ≡ true → length r.1.rest < length s.rest
    go true h = absurd (unfold goes_on is_empty in (cc))
    go false h = read_some_shrinks size breaks s pos h

module _ {ℓ} {S : Type ℓ} (size : ℕ) (breaks : ℕ → Option ℕ) (body : Text → S → S × Bool) where
  -- Whatever breaks off and whatever the body does, the loop ends.
  pub for_pieces_total :
      (fuel i : ℕ) (s : Stream) (st : S)
      → 0 < size
      → length s.rest < fuel
      → (st' : S) × (for_pieces size breaks body fuel i s st ≡ some st')
  unfolding for_pieces
  for_pieces_total zero i s st pos h = absurd (omega arith)
  for_pieces_total (suc fuel) i s st pos h =
      elim (Bool-cases (goes_on (read size (breaks i) s).0 (read size (breaks i) s).1)) [
        | inr e ↦ (st, rw e refl)
        | inl e ↦ elim (Bool-cases (body (read size (breaks i) s).0 st).1) [
          | inr out ↦ ((body (read size (breaks i) s).0 st).0, rw (e, out) refl)
          | inl on ↦
              rw (e, on)
                (for_pieces_total fuel (i + 1) (read size (breaks i) s).1
                  (body (read size (breaks i) s).0 st).0 pos
                  (omega (arith, h, read_shrinks size (breaks i) s pos e)))
        ]
      ]

or_true : (b : Bool) → (b || true) ≡ true
or_true true = refl
or_true false = refl

-- Reads that do not break off.
abbrev pub whole : ℕ → Option ℕ
whole i = none

module _ {ℓ κ} {S : Type ℓ} (n : ℕ) (body : Text → S → S × Bool) (P : Text → S → Type κ) where
  -- The loop's invariant, over what has been read so far.
  pub for_pieces_inv :
      ((c : ℕ) (bytes before : Text) (st : S)
        → length (c ∷ bytes) ≤ suc n
        → P before st
        → ((body (c ∷ bytes) st).1 ≡ true) × P (before ++ (c ∷ bytes)) (body (c ∷ bytes) st).0)
      → (fuel i : ℕ) (s : Stream) (rest before : Text) (st : S) → IsSound s
      → s.rest ≡ rest
      → length rest < fuel
      → P before st
      → (st' : S) × (for_pieces (suc n) whole body fuel i s st ≡ some st') × P (before ++ rest) st'
  unfolding for_pieces goes_on is_empty
  for_pieces_inv keep zero i s rest before st ok e h p = absurd (omega arith)
  for_pieces_inv keep (suc fuel) i s [] before st ok e h p =
      let (empty, _, failed) = read_at_end (suc n) s (omega arith) ok e in
      (st, rw (empty, failed) refl, rw (append-nil before) p)
  for_pieces_inv keep (suc fuel) i s (c ∷ t) before st ok e h p =
      let (on, p') = keep c (take n t) before st (omega (arith, length-take_le n t)) p in
      let (st', run, q) =
        for_pieces_inv keep fuel (i + 1) _ (drop n t) (before ++ (c ∷ take n t))
          (body (c ∷ take n t) st).0 (read_more-IsSound n s c t ok) refl
          (omega (arith, h, length-drop_le n t)) p' in
      (
        st',
        rw (read_more n s c t ok e, on)
            (rw (or_true (not (ltb (length (c ∷ t)) (suc n) || s.bad))) run),
        subst (λ all. P all st')
            (append_assoc before (c ∷ take n t) (drop n t)
              ∙ ap (λ u. before ++ (c ∷ u)) (take_drop n t))
            q,
      )
