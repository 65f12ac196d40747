-- ===== src/Logger/Roll/Day.antt =====
-- What a day's log files hold.
use cccloud.Prelude.{
  ap₂, ℕ_discrete, ℕ, zero, suc, ◌+◌, ◌<◌, ◌≤◌, ◌≡◌, refl, sym, ap, ◌∙◌, subst, true, false, [],
  ◌++◌, Option, none, some, arith, length, length-append, ◌==◌,
}
use mathlib.Core.List.{append-nil, append_assoc}
use cccloud.Text.{Text}
use cccloud.Server.{same_refl}
use cccloud.Logger.Roll.{max_log_file_size, Roller, Disk, text_of, append_file}

abbrev pub good_disk : Disk
good_disk = record { makes = true; creates = true; opens = true }

-- The files from the first to number `n`, one after the other.
unfoldable pub day_text : ℕ → (ℕ → Option Text) → Text
day_text zero f = []
day_text (suc n) f = day_text n f ++ text_of (f (suc n))

-- A date whose files hold `done`, where no batch was longer than `bound`.
pub record Day (date : Text) (bound : ℕ) (r : Roller) (done : Text) : Type 0 where
  pub made : r.dated date ≡ true
  pub numbered : 0 < r.current_file_index
  pub all : day_text r.current_file_index (r.files date) ≡ done
  pub beyond : (j : ℕ) → r.current_file_index < j → r.files date j ≡ none
  pub full :
      (j : ℕ)
      → 0 < j
      → j < r.current_file_index
      → max_log_file_size ≤ length (text_of (r.files date j))
  pub small : (j : ℕ) → length (text_of (r.files date j)) < max_log_file_size + bound

day_text-ext :
    (n : ℕ) (f g : ℕ → Option Text) → ((j : ℕ) → j ≤ n → f j ≡ g j) → day_text n f ≡ day_text n g
unfolding day_text
day_text-ext zero f g h = refl
day_text-ext (suc n) f g h =
    rw (day_text-ext n f g (λ j l. h j (omega arith)), h (suc n) (omega arith)) refl

pub file_here :
    (date : Text) (i : ℕ) (text : Text) (r : Roller)
    → (append_file date i text r).files date i ≡ some (text_of (r.files date i) ++ text)
unfolding append_file
file_here date i text r = rw (same_refl date) (ground arith)

pub file_there :
    (date : Text) (i : ℕ) (text : Text) (r : Roller) (j : ℕ)
    → (j == i) ≡ false
    → (append_file date i text r).files date j ≡ r.files date j
unfolding append_file
file_there date i text r j h = rw (same_refl date, h) refl

day_text-append :
    (date text : Text) (n : ℕ) (r : Roller)
    → 0 < n
    → day_text n ((append_file date n text r).files date) ≡ day_text n (r.files date) ++ text
unfolding day_text
day_text-append date text zero r pos = absurd (omega arith)
day_text-append date text (suc n) r pos =
    ap₂ (λ s t. s ++ text_of t)
      (day_text-ext n ((append_file date (suc n) text r).files date) (r.files date)
        (λ j l. file_there date (suc n) text r j (ground (arith, l))))
      (file_here date (suc n) text r)
    ∙ sym (append_assoc (day_text n (r.files date)) (text_of (r.files date (suc n))) text)

pub append-Day :
    (date text : Text) (bound : ℕ) (r : Roller) (done : Text)
    → Day date bound r done
    → length (text_of (r.files date r.current_file_index)) < max_log_file_size
    → length text ≤ bound
    → Day date bound (append_file date r.current_file_index text r) (done ++ text)
unfolding append_file
append-Day date text bound r done d low short = record {
  made = d.made;
  numbered = d.numbered;
  all = day_text-append date text r.current_file_index r d.numbered ∙ ap (λ s. s ++ text) d.all;
  beyond = λ j l. file_there date r.current_file_index text r j (ground (arith, l)) ∙ d.beyond j l;
  full = λ j p l.
      rw (file_there date r.current_file_index text r j (ground (arith, l))) (d.full j p l);
  small = λ j. elim (ℕ_discrete j r.current_file_index) [
    | yes e ↦
        rw (e, file_here date r.current_file_index text r)
          (omega
            (arith, length-append (text_of (r.files date r.current_file_index)) text, low, short))
    | no ne ↦ rw (file_there date r.current_file_index text r j (ground (arith, ne))) (d.small j)
  ];
}

pub bump-Day :
    (date : Text) (bound : ℕ) (r : Roller) (done : Text)
    → Day date bound r done
    → max_log_file_size ≤ length (text_of (r.files date r.current_file_index))
    → Day date bound (record r { current_file_index = r.current_file_index + 1 }) done
unfolding day_text
bump-Day date bound r done d high = record {
  made = d.made;
  numbered = omega arith;
  all =
      subst (λ n. day_text n (r.files date) ≡ done) (suc_eq r.current_file_index)
        (rw (d.beyond (suc r.current_file_index) (omega arith))
          (append-nil (day_text r.current_file_index (r.files date)) ∙ d.all));
  beyond = λ j l. d.beyond j (omega arith);
  full = λ j p l. elim (ℕ_discrete j r.current_file_index) [
    | yes e ↦ rw e high
    | no ne ↦ d.full j p (omega (arith, l, ne))
  ];
  small = d.small;
}
  where
    suc_eq : (n : ℕ) → suc n ≡ n + 1
    suc_eq n = omega arith
