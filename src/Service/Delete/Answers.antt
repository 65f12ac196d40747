-- ===== src/Service/Delete/Answers.antt =====
-- What a delete call to the synchronous service answers, and what it leaves on the disk.
use cccloud.Prelude.{◌≡◌, refl, inl, inr, Bool, true, false, none, some, arith, Option-cases}
use cccloud.Text.{Text}
use cccloud.Logger.{code_ok, code_not_found}
use cccloud.Server.{Files, put_file, same, same_refl}
use cccloud.Service.{returns, throws, Call, Reply}
use cccloud.Service.Upload.{service_path}
use cccloud.Service.Delete.{answer, delete_file}

pub success-delete_file :
    (call : Call) (refuses : Bool) (filename : Text) (files : Files)
    → (delete_file call refuses filename files).success ≡ false
unfolding delete_file answer
success-delete_file call true filename files = refl
success-delete_file call false filename files = ground arith

-- The handler's ending: whether it removed the file, found none, or was refused.
pub data Answered (filename : Text) (files : Files) (r : Reply) : Type 0 where
  removed :
      (content message : Text)
      → files (service_path filename) ≡ some content
      → r.ending ≡ returns (record { code = code_ok; message = message })
      → r.files (service_path filename) ≡ none
      → ((q : Text) → same q (service_path filename) ≡ false → r.files q ≡ files q)
      → Answered filename files r
  missing :
      (message : Text)
      → files (service_path filename) ≡ none
      → r.ending ≡ returns (record { code = code_not_found; message = message })
      → r.files ≡ files
      → Answered filename files r
  refused : r.ending ≡ throws → r.files ≡ files → Answered filename files r

-- On every branch: OK if the file was there and is gone, NOT_FOUND if there was none, an exception
-- if the system refused; no other file changes.
pub delete_file_answers :
    (call : Call) (refuses : Bool) (filename : Text) (files : Files)
    → Answered filename files (delete_file call refuses filename files)
unfolding delete_file answer
delete_file_answers call true filename files = refused refl refl
delete_file_answers call false filename files =
    elim (Option-cases (files (service_path filename))) [
      | inl e ↦ rw e (missing _ e refl refl)
      | inr (content, e) ↦ rw e (
          removed content _ e refl
            (unfold put_file in (rw (same_refl (service_path filename)) refl))
            (λ q ne. unfold put_file in (rw ne refl)))
    ]
