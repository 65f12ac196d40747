-- ===== src/Client/Tasks/Together.antt =====
-- client/async_client.cc: the files of tasks that run at once.
use mathlib.Core.List.{append_cancel_left, append_cancel_right}
use cccloud.Prelude.{
  ap₂, ==_iff, ◌+◌, ◌&&◌, ℕ, suc, ◌≡◌, ◌≢◌, refl, sym, ap, ◌∙◌, Bool, true, false, List, [], ◌∷◌,
  ◌++◌, some, arith, Bool-cases, inl, inr, ◌==◌,
}
use cccloud.Text.{Text, codes}
use cccloud.Text.Numbers.{to_string, parse_int}
use cccloud.Text.Numbers.Digits.{parse_int-to_string}
use cccloud.Server.{Files, same, join}
use cccloud.Server.Upload.{Chunk, upload_path}
use cccloud.Server.Upload.Many.{arrive_all, data_of, AreNamed, new_calls, comes_for}
use cccloud.Server.Upload.Many.Interleaved.{interleaved_uploads_store}
use cccloud.Client.Bench.{task_file}

same_sound : (s t : Text) → same s t ≡ true → s ≡ t
same_sound [] [] e = refl
same_sound [] (d ∷ t) e = absurd (cc)
same_sound (c ∷ s) [] e = absurd (cc)
same_sound (c ∷ s) (d ∷ t) e =
    let (head, rest) = both (c == d) (same s t) e in
    ap₂ (λ a b. a ∷ b) ((==_iff c d).0 head) (same_sound s t rest)
  where
    both : (a b : Bool) → (a && b) ≡ true → (a ≡ true) × (b ≡ true)
    both a b h = ground arith

to_string-injective : (i j : ℕ) → to_string i ≡ to_string j → i ≡ j
to_string-injective i j e =
    let read =
      sym (parse_int-to_string (suc (i + j)) i (omega arith))
      ∙ ap (parse_int (suc (i + j))) e
      ∙ parse_int-to_string (suc (i + j)) j (omega arith) in
    cc read

task_file-injective : (i j : ℕ) → task_file i ≡ task_file j → i ≡ j
unfolding task_file
task_file-injective i j e = to_string-injective i j (
    append_cancel_right (to_string i) (to_string j) (codes ".bin")
      (append_cancel_left (codes "test_") _ _ e))

upload_path-task_file :
    (cwd : Text) (id : ℕ)
    → upload_path cwd (task_file id) ≡ join cwd (codes "uploads") ++ (codes "/" ++ task_file id)
unfolding task_file join upload_path
upload_path-task_file cwd id = refl

-- The tasks name different files, so none of the uploads of the load client disturbs another: on a
-- server whose disk does not fail, with any interleaving of the messages of any number of tasks, each
-- task whose first message has arrived has in its file the data of its own messages, in order.
pub tasks_upload_apart :
    (now : ℕ) (uuid : ℕ → Text) (peer cwd : Text) (files : Files) (arrivals : List (ℕ × Chunk))
    (i : ℕ)
    → AreNamed task_file (λ j. false) arrivals
    → comes_for i arrivals ≡ true
    → (arrive_all arrivals (new_calls now uuid peer cwd files)).shared
        (upload_path cwd (task_file i))
      ≡ some (data_of i arrivals)
tasks_upload_apart now uuid peer cwd files arrivals i named comes =
    interleaved_uploads_store cwd task_file now uuid peer files arrivals i named apart comes
  where
    apart :
        (j : ℕ)
        → i ≢ j
        → same (upload_path cwd (task_file i)) (upload_path cwd (task_file j)) ≡ false
    apart j ne =
        elim (Bool-cases (same (upload_path cwd (task_file i)) (upload_path cwd (task_file j)))) [
          | inr different ↦ different
          | inl equal ↦ absurd (
              ne (
                task_file-injective i j (
                  append_cancel_left (codes "/") _ _ (
                    append_cancel_left (join cwd (codes "uploads")) _ _ (
                      sym (upload_path-task_file cwd i)
                      ∙ same_sound _ _ equal
                      ∙ upload_path-task_file cwd j)))))
        ]
