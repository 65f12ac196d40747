-- ===== src/Access/Entries.antt =====
-- The fields of the entries that calls log.
use cccloud.Prelude.{ℕ, ◌≡◌, refl}
use cccloud.Text.{Text}
use cccloud.Logger.{OperationType, StatusCode}
use cccloud.Access.{log_commit, log_abort}

pub code-log_commit :
    (now : ℕ) (uuid peer : Text) (op : OperationType) (params : Text) (code : StatusCode) (ms : ℕ)
    (msg : Text)
    → (log_commit now uuid peer op params code ms msg).status_code ≡ code
unfolding log_commit
code-log_commit now uuid peer op params code ms msg = refl

pub code-log_abort :
    (now : ℕ) (uuid peer : Text) (op : OperationType) (code : StatusCode) (reason : Text) (ms : ℕ)
    → (log_abort now uuid peer op code reason ms).status_code ≡ code
unfolding log_abort log_commit
code-log_abort now uuid peer op code reason ms = refl
