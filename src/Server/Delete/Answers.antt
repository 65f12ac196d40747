-- ===== src/Server/Delete/Answers.antt =====
-- What a delete call answers, and what it leaves behind.
use cccloud.Prelude.{
  length-append, Option-cases, ℕ, ◌≡◌, refl, true, false, [], ◌∷◌, Option, none, some, length,
  arith, inl, inr,
}
use cccloud.Text.{Text}
use cccloud.Server.{ok_status, Files, put_file, same, same_refl}
use cccloud.Server.Delete.{
  done_entry, cancel_entry, Delete, finish_ok, finish_err, fail_with, delete_path, perform_delete,
  create, on_done, on_cancel,
}

-- A call that removed its file, and no other, and one that left every file alone.
pub data Answered (files : Files) (path : Text) (d : Delete) : Type 0 where
  removed :
      (content : Text)
      → files path ≡ some content
      → d.files path ≡ none
      → ((q : Text) → same q path ≡ false → d.files q ≡ files q)
      → d.response.success ≡ true
      → d.finishes ≡ ok_status ∷ []
      → Answered files path d
  refused :
      d.files ≡ files
      → d.response.success ≡ false
      → d.finishes ≡ d.status ∷ []
      → d.status.code ≡ 13
      → Answered files path d

-- Whatever the disk does, a new call has called `Finish` exactly once. Either it answers success
-- and has removed the file that was there, or it answers failure with INTERNAL and has changed
-- no file.
pub create_answers :
    (now : ℕ) (uuid peer filename : Text) (denied : Option Text) (no_error : Text) (files : Files)
    → Answered files (delete_path filename) (create now uuid peer filename denied no_error files)
unfolding create perform_delete fail_with finish_err finish_ok put_file
create_answers now uuid peer filename (some denied) no_error files = refused refl refl refl refl
create_answers now uuid peer filename none no_error files =
    elim (Option-cases (files (delete_path filename))) [
      | inl e ↦ rw e (refused refl refl refl refl)
      | inr (content, e) ↦ rw e (
          removed content e (rw (put_file, same_refl (delete_path filename)) refl)
            (λ q ne. rw (put_file, ne) refl) refl refl)
    ]

create_fresh :
    (now : ℕ) (uuid peer filename : Text) (denied : Option Text) (no_error : Text) (files : Files)
    → let d = create now uuid peer filename denied no_error files in
      (d.deletions ≡ 0) × (length d.logs ≡ 1)
unfolding create perform_delete fail_with finish_err finish_ok
create_fresh now uuid peer filename (some denied) no_error files = (refl, refl)
create_fresh now uuid peer filename none no_error files = ground arith

-- A call that gRPC cancels runs `delete this` in `OnCancel` and again in `OnDone`, and logs its
-- end twice.
pub cancelled_call_is_deleted_twice :
    (now at now' ms ms' : ℕ) (uuid peer filename : Text) (denied : Option Text) (no_error : Text)
    (files : Files)
    → let d =
        on_done now' ms' (on_cancel at ms (create now uuid peer filename denied no_error files)) in
      (d.deletions ≡ 2) × (length d.logs ≡ 3)
unfolding on_done on_cancel
cancelled_call_is_deleted_twice now at now' ms ms' uuid peer filename denied no_error files =
    let d = create now uuid peer filename denied no_error files in
    let (deletions, logs) = create_fresh now uuid peer filename denied no_error files in
    let d' = on_cancel at ms d in
    (
      omega (arith, deletions),
      omega (
        arith,
        logs,
        length-append d'.logs (done_entry now' ms' d' ∷ []),
        length-append d.logs (cancel_entry at ms d ∷ []),
      ),
    )
