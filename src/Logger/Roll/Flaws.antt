-- ===== src/Logger/Roll/Flaws.antt =====
-- The number of the log file at a change of the date.
use cccloud.Prelude.{
  Option, ap, ℕ, ◌<◌, ◌≡◌, ◌≢◌, ◌∙◌, refl, true, false, ◌∷◌, ◌++◌, [], none, some, arith, ◌==◌,
  ◌||◌,
}
use cccloud.Text.{Text}
use cccloud.Server.{same, same_refl}
use cccloud.Logger.Roll.{
  Roller, append_file, create_file, by_size, get_current_log_file_path, write_to, write_batch,
  write_rest, write_batches, text_of,
}
use cccloud.Logger.Roll.Day.{good_disk, file_here, file_there}

-- The state after the first batch of a date.
opened : Text → Text → Roller → Roller
opened date a r = append_file date 1 a (record r { dated = λ d. same d date || r.dated d })

first_batch :
    (date a : Text) (r : Roller)
    → r.dated date ≡ false
    → write_batch good_disk date a r ≡ some (opened date a r)
unfolding write_batch get_current_log_file_path write_to opened
first_batch date a r new = rw new refl

missing_file :
    (date b : Text) (r : Roller) (o : Option Text)
    → o ≡ none
    → write_to good_disk date b (by_size good_disk date r o)
      ≡ some (append_file date r.current_file_index b (append_file date r.current_file_index [] r))
unfolding write_to by_size create_file
missing_file date b r none e = refl
missing_file date b r (some content) e = absurd (cc e)

batch_to_missing :
    (date b : Text) (r : Roller)
    → r.dated date ≡ true
    → r.files date r.current_file_index ≡ none
    → write_batch good_disk date b r
      ≡ some (append_file date r.current_file_index b (append_file date r.current_file_index [] r))
unfolding write_batch get_current_log_file_path
batch_to_missing date b r made missing =
    rw made (missing_file date b r (r.files date r.current_file_index) missing)

dated-opened : (date a : Text) (r : Roller) → (opened date a r).dated date ≡ true
unfolding opened append_file
dated-opened date a r = rw (same_refl date) refl

index-opened :
    (date a : Text) (r : Roller) → (opened date a r).current_file_index ≡ r.current_file_index
unfolding opened append_file
index-opened date a r = refl

after : Text → Text → Text → Roller → Roller
after date a b r =
    append_file date r.current_file_index b
      (append_file date r.current_file_index [] (opened date a r))

index-after :
    (date a b : Text) (r : Roller) → (after date a b r).current_file_index ≡ r.current_file_index
unfolding after append_file opened
index-after date a b r = refl

old_file :
    (date a b : Text) (r : Roller) (j : ℕ)
    → (j == r.current_file_index) ≡ false
    → (after date a b r).files date j ≡ (opened date a r).files date j
unfolding after
old_file date a b r j ne =
    file_there date r.current_file_index b
      (append_file date r.current_file_index [] (opened date a r)) j ne
    ∙ file_there date r.current_file_index [] (opened date a r) j ne

new_file :
    (date a b : Text) (r : Roller)
    → (opened date a r).files date r.current_file_index ≡ none
    → (after date a b r).files date r.current_file_index ≡ some b
unfolding after
new_file date a b r e =
    file_here date r.current_file_index b
      (append_file date r.current_file_index [] (opened date a r))
    ∙ ap (λ o. some (text_of o ++ b))
        (file_here date r.current_file_index [] (opened date a r)
          ∙ ap (λ o. some (text_of o ++ [])) e)

missing-opened :
    (date a : Text) (r : Roller)
    → ((j : ℕ) → r.files date j ≡ none)
    → 1 < r.current_file_index
    → (opened date a r).files date r.current_file_index ≡ none
unfolding opened
missing-opened date a r no_files high =
    file_there date 1 a (record r { dated = λ d. same d date || r.dated d }) r.current_file_index
      (ground (arith, high))
    ∙ no_files r.current_file_index

second_batch :
    (date a b : Text) (r : Roller)
    → ((j : ℕ) → r.files date j ≡ none)
    → 1 < r.current_file_index
    → write_batch good_disk date b (opened date a r) ≡ some (after date a b r)
unfolding after
second_batch date a b r no_files high =
    batch_to_missing date b (opened date a r) (dated-opened date a r) (
      ap (λ i. (opened date a r).files date i) (index-opened date a r)
      ∙ missing-opened date a r no_files high)
    ∙ ap (λ i. some (append_file date i b (append_file date i [] (opened date a r))))
        (index-opened date a r)

-- A change of the date after the file numbered `current_file_index_` of the day before, a number above
-- one: the first batch of the new date goes to its file 1, the second to the file with the old number,
-- and the files between are never made.
pub new_date_keeps_number :
    (date a b : Text) (r : Roller)
    → r.dated date ≡ false
    → ((j : ℕ) → r.files date j ≡ none)
    → 1 < r.current_file_index
    → (r' : Roller) × (write_batches good_disk date (a ∷ b ∷ []) r ≡ some r')
      × (r'.current_file_index ≡ r.current_file_index)
      × (r'.files date 1 ≡ some a)
      × (r'.files date r.current_file_index ≡ some b)
      × ((j : ℕ) → j ≢ 1 → j ≢ r.current_file_index → r'.files date j ≡ none)
unfolding write_batches write_rest opened
new_date_keeps_number date a b r new no_files high = (
  after date a b r,
  rw (first_batch date a r new, second_batch date a b r no_files high) refl,
  index-after date a b r,
  old_file date a b r 1 (ground (arith, high))
      ∙ file_here date 1 a (record r { dated = λ d. same d date || r.dated d })
      ∙ ap (λ o. some (text_of o ++ a)) (no_files 1),
  new_file date a b r (missing-opened date a r no_files high),
  λ j x y.
      old_file date a b r j (ground (arith, y))
      ∙ file_there date 1 a (record r { dated = λ d. same d date || r.dated d }) j
          (ground (arith, x))
      ∙ no_files j,
)
