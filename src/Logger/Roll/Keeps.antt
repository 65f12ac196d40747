-- ===== src/Logger/Roll/Keeps.antt =====
-- Batches written on one date, turn by turn.
use cccloud.Prelude.{
  inr, inl, ℕ, ◌+◌, ◌<◌, ◌≤◌, ◌≡◌, refl, sym, subst, false, ◌||◌, List, [], ◌∷◌, ◌++◌, Option, none,
  some, arith, length, leb, Bool-cases,
}
use mathlib.Core.List.{append-nil, append_assoc}
use cccloud.Text.{Text}
use cccloud.Server.{same, same_refl}
use cccloud.Service.Download.Sends.{concat}
use cccloud.Logger.Roll.{
  max_log_file_size, Roller, text_of, append_file, create_file, by_size, get_current_log_file_path,
  write_to, write_batch, write_rest, write_batches,
}
use cccloud.Logger.Roll.Day.{good_disk, day_text, Day, file_here, append-Day, bump-Day}

created_low :
    (date : Text) (i : ℕ) (r : Roller)
    → r.files date i ≡ none
    → length (text_of ((append_file date i [] r).files date i)) < max_log_file_size
created_low date i r missing = rw (file_here date i [] r, missing) (omega arith)

-- A new file under the number that is next, or under a number whose file is missing.
create-Day :
    (date text : Text) (bound : ℕ) (r : Roller) (done : Text)
    → Day date bound r done
    → r.files date r.current_file_index ≡ none
    → length text ≤ bound
    → Day date bound
        (append_file date r.current_file_index text (append_file date r.current_file_index [] r))
        (done ++ text)
unfolding append_file
create-Day date text bound r done d missing short =
    append-Day date text bound (append_file date r.current_file_index [] r) done
      (subst (λ t. Day date bound (append_file date r.current_file_index [] r) t) (append-nil done)
        (append-Day date [] bound r done d (rw missing (omega arith)) (omega arith)))
      (created_low date r.current_file_index r missing) short

by_size-Day :
    (date text : Text) (bound : ℕ) (r : Roller) (done : Text)
    → Day date bound r done
    → length text ≤ bound
    → (o : Option Text) → r.files date r.current_file_index ≡ o
    → (r' : Roller) × (write_to good_disk date text (by_size good_disk date r o) ≡ some r')
      × Day date bound r' (done ++ text)
unfolding by_size write_to create_file
by_size-Day date text bound r done d short none e =
    (_, refl, create-Day date text bound r done d e short)
by_size-Day date text bound r done d short (some content) e =
    elim (Bool-cases (leb max_log_file_size (length content))) [
      | inl high ↦ (
        _,
        rw high refl,
        create-Day date text bound (record r { current_file_index = r.current_file_index + 1 }) done
            (bump-Day date bound r done d (rw e (ground (arith, high))))
            (d.beyond (r.current_file_index + 1) (omega arith)) short,
      )
      | inr low ↦
          (_, rw low refl, append-Day date text bound r done d (rw e (ground (arith, low))) short)
    ]

write_batch-Day :
    (date text : Text) (bound : ℕ) (r : Roller) (done : Text)
    → Day date bound r done
    → length text ≤ bound
    → (r' : Roller) × (write_batch good_disk date text r ≡ some r')
      × Day date bound r' (done ++ text)
unfolding write_batch get_current_log_file_path
write_batch-Day date text bound r done d short =
    rw d.made (by_size-Day date text bound r done d short (r.files date r.current_file_index) refl)

-- Batches that are not longer than `bound`.
abbrev pub AreShort : ℕ → List Text → Type 0
AreShort bound [] = Unit
AreShort bound (text ∷ texts) = (length text ≤ bound) × AreShort bound texts

write_batches-Day :
    (date : Text) (bound : ℕ) (texts : List Text) (r : Roller) (done : Text)
    → Day date bound r done
    → AreShort bound texts
    → (r' : Roller) × (write_batches good_disk date texts r ≡ some r')
      × Day date bound r' (done ++ concat texts)
unfolding write_batches write_rest
write_batches-Day date bound [] r done d short =
    (r, refl, subst (λ t. Day date bound r t) (sym (append-nil done)) d)
write_batches-Day date bound (text ∷ texts) r done d (s, short) =
    let (r', run, d') = write_batch-Day date text bound r done d s in
    let (r'', rest, d'') = write_batches-Day date bound texts r' (done ++ text) d' short in
    (
      r'',
      rw run rest,
      subst (λ t. Day date bound r'' t) (append_assoc done text (concat texts)) d'',
    )

-- The first turn on a date that has no directory and no files, where `current_file_index_` is 1.
first-Day :
    (date text : Text) (bound : ℕ) (r : Roller)
    → r.dated date ≡ false
    → ((j : ℕ) → r.files date j ≡ none)
    → r.current_file_index ≡ 1
    → length text ≤ bound
    → (r' : Roller) × (write_batch good_disk date text r ≡ some r') × Day date bound r' text
unfolding write_batch get_current_log_file_path write_to day_text
first-Day date text bound r new no_files one short =
    let opened : Roller = record r { dated = λ d. same d date || r.dated d } in
    (
      append_file date 1 text opened,
      rw new refl,
      subst (λ i. Day date bound (append_file date i text opened) text) one
          (append-Day date text bound opened []
            (record {
              made = rw (same_refl date) refl;
              numbered = omega (arith, one);
              all = rw (one, no_files 1) refl;
              beyond = λ j l. no_files j;
              full = λ j p l. absurd (omega (arith, one, p, l));
              small = λ j. rw (no_files j) (omega arith);
            })
            (rw (no_files r.current_file_index) (omega arith)) short),
    )

-- A date that has no directory and no files yet, while `current_file_index_` is 1, on a disk that
-- does not fail: after any batches of at most `bound` bytes each, the files of the date from the first
-- to the one numbered `current_file_index_`, one after the other, are the batches in order; no file
-- has a higher number; each file before the last has reached the maximal size, and none exceeds it by
-- `bound` or more.
pub write_batches-keeps :
    (date text : Text) (texts : List Text) (bound : ℕ) (r : Roller)
    → r.dated date ≡ false
    → ((j : ℕ) → r.files date j ≡ none)
    → r.current_file_index ≡ 1
    → AreShort bound (text ∷ texts)
    → (r' : Roller) × (write_batches good_disk date (text ∷ texts) r ≡ some r')
      × Day date bound r' (concat (text ∷ texts))
unfolding write_batches write_rest
write_batches-keeps date text texts bound r new no_files one (s, short) =
    let (r', run, d) = first-Day date text bound r new no_files one s in
    let (r'', rest, d') = write_batches-Day date bound texts r' text d short in
    (r'', rw run rest, d')
