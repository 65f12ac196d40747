-- ===== src/Server/Upload/Protocol.antt =====
-- An upload against gRPC's contract for a reactor, whatever the stream and the disk do.
use cccloud.Prelude.{
  ◌<◌, subst, ap, arith, if◌then◌else◌, ◌∙◌, Option, none, some, some, Option, ℕ, suc, ◌≡◌, refl,
  Bool, true, false, List, [], ◌∷◌, ◌⊎◌, inl, inr, length,
}
use cccloud.Text.{Text, codes}
use cccloud.Logger.{LogEntry, code_ok, upload}
use cccloud.Access.Entries.{code-log_commit, code-log_abort}
use cccloud.Server.{Files}
use cccloud.Server.Upload.{
  done_entry, MakeOutcome, Chunk, Request, start_read, finish, Disk, made, filesystem_error,
  other_error, Upload, create, on_read_done, write_chunk, make_directory, open_file, finish_ok,
  finish_err, on_done,
}

unfoldable pub finishes : List Request → ℕ
finishes [] = 0
finishes (start_read ∷ rs) = finishes rs
finishes (finish st ∷ rs) = suc (finishes rs)

unfoldable pub reads : List Request → ℕ
reads [] = 0
reads (start_read ∷ rs) = suc (reads rs)
reads (finish st ∷ rs) = reads rs

-- The callbacks that gRPC makes, with the number of those for reads: `OnReadDone` for each read that
-- has been asked for, and `OnDone` after `Finish`, once.
pub data Step (u : Upload) (n : ℕ) : Upload → ℕ → Type 0 where
  read_done :
      (ok : Bool) (chunk : Chunk) (disk : Disk)
      → n < reads u.requests
      → Step u n (on_read_done ok chunk disk u) (suc n)
  done : (now ms : ℕ) → 0 < finishes u.requests → u.alive ≡ true → Step u n (on_done now ms u) n

-- The states of a call, with the number of its `OnReadDone` callbacks so far.
pub data Reach (now : ℕ) (uuid peer cwd : Text) (files : Files) : Upload → ℕ → Type 0 where
  begin : Reach now uuid peer cwd files (create now uuid peer cwd files) 0
  later :
      {u v : Upload} {n m : ℕ}
      → Reach now uuid peer cwd files u n
      → Step u n v m
      → Reach now uuid peer cwd files v m

-- What one `OnReadDone` asks for, and what it leaves alone.
abbrev Asks : Upload → Upload → Type 0
Asks u v =
    (v.logs ≡ u.logs)
    × (v.alive ≡ u.alive)
    × ((v.requests ≡ start_read ∷ u.requests) ⊎ (v.requests ≡ finish v.status ∷ u.requests))

Asks-if : (b : Bool) (u v w : Upload) → Asks u v → Asks u w → Asks u (if b then v else w)
Asks-if true u v w a c = a
Asks-if false u v w a c = c

write_chunk-Asks :
    (written : Option ℕ) (chunk : Chunk) (u : Upload) → Asks u (write_chunk written chunk u)
unfolding write_chunk finish_err
write_chunk-Asks none chunk u = (refl, refl, inl refl)
write_chunk-Asks (some n) chunk u = (refl, refl, inr refl)

open_file-Asks : (disk : Disk) (chunk : Chunk) (u : Upload) → Asks u (open_file disk chunk u)
unfolding open_file finish_err
open_file-Asks disk chunk u =
    Asks-if disk.opens u _ _ (write_chunk-Asks disk.written chunk _) (refl, refl, inr refl)

make_directory-Asks :
    (make : MakeOutcome) (disk : Disk) (chunk : Chunk) (u : Upload)
    → Asks u (make_directory make disk chunk u)
unfolding make_directory finish_err
make_directory-Asks made disk chunk u = open_file-Asks disk chunk u
make_directory-Asks filesystem_error disk chunk u = (refl, refl, inr refl)
make_directory-Asks other_error disk chunk u = (refl, refl, inr refl)

on_read_done-Asks :
    (ok : Bool) (chunk : Chunk) (disk : Disk) (u : Upload) → Asks u (on_read_done ok chunk disk u)
unfolding on_read_done finish_ok
on_read_done-Asks false chunk disk u = (refl, refl, inr refl)
on_read_done-Asks true chunk disk u =
    Asks-if u.file_opened u _ _ (write_chunk-Asks disk.written chunk u)
      (make_directory-Asks disk.make disk chunk u)

-- A call with one read outstanding, one with none that waits for `OnDone`, and one that is over.
pub data IsOrderly (u : Upload) (n : ℕ) : Type 0 where
  reading :
      reads u.requests ≡ suc n
      → finishes u.requests ≡ 0
      → u.alive ≡ true
      → length u.logs ≡ 1
      → IsOrderly u n
  finishing :
      (rs : List Request)
      → u.requests ≡ finish u.status ∷ rs
      → reads rs ≡ n
      → finishes rs ≡ 0
      → u.alive ≡ true
      → length u.logs ≡ 1
      → IsOrderly u n
  over :
      (rs : List Request) (entry commit : LogEntry)
      → u.requests ≡ finish u.status ∷ rs
      → reads rs ≡ n
      → finishes rs ≡ 0
      → u.alive ≡ false
      → u.logs ≡ entry ∷ commit ∷ []
      → commit.status_code ≡ u.status.code
      → IsOrderly u n

-- After `Finish` no read is outstanding.
none_outstanding :
    (u : Upload) (n : ℕ) (rs : List Request)
    → u.requests ≡ finish u.status ∷ rs
    → reads rs ≡ n
    → n < reads u.requests
    → ⊥
unfolding reads
none_outstanding u n rs e c more = omega (arith, c, subst (λ q. n < reads q) e more)

read_done-IsOrderly :
    (ok : Bool) (chunk : Chunk) (disk : Disk) (u : Upload) (n : ℕ)
    → n < reads u.requests
    → IsOrderly u n
    → IsOrderly (on_read_done ok chunk disk u) (suc n)
unfolding finishes reads
read_done-IsOrderly ok chunk disk u n more (finishing rs e c f a l) =
    absurd (none_outstanding u n rs e c more)
read_done-IsOrderly ok chunk disk u n more (over rs entry commit e c f a l k) =
    absurd (none_outstanding u n rs e c more)
read_done-IsOrderly ok chunk disk u n more (reading c f a l) =
    let (logs, alive, asks) = on_read_done-Asks ok chunk disk u in
    elim asks [
      | inl next ↦
          reading (ap reads next ∙ ap suc c) (ap finishes next ∙ f) (alive ∙ a) (rw (logs, l) refl)
      | inr next ↦ finishing u.requests next c f (alive ∙ a) (rw (logs, l) refl)
    ]

code-done_entry : (now ms : ℕ) (u : Upload) → (done_entry now ms u).status_code ≡ u.status.code
unfolding done_entry
code-done_entry now ms u = ground (
  arith,
  code-log_commit now u.uuid u.peer upload (codes "upload committed") code_ok ms [],
  code-log_abort now u.uuid u.peer upload u.status.code u.status.message ms,
)

one_entry :
    (entries : List LogEntry) → length entries ≡ 1 → (entry : LogEntry) × (entries ≡ entry ∷ [])
one_entry [] l = absurd (omega (arith, l))
one_entry (entry ∷ []) l = (entry, refl)
one_entry (entry ∷ other ∷ entries) l = absurd (omega (arith, l))

on_done-IsOrderly :
    (now ms n : ℕ) (u : Upload) (rs : List Request)
    → u.requests ≡ finish u.status ∷ rs
    → reads rs ≡ n
    → finishes rs ≡ 0
    → length u.logs ≡ 1
    → IsOrderly (on_done now ms u) n
unfolding on_done
on_done-IsOrderly now ms n u rs e c f l =
    let (entry, one) = one_entry u.logs l in
    over rs entry (done_entry now ms u) e c f refl (rw one refl) (code-done_entry now ms u)

Step-IsOrderly : {u v : Upload} {n m : ℕ} → Step u n v m → IsOrderly u n → IsOrderly v m
Step-IsOrderly {u} {n = n} (read_done ok chunk disk more) o =
    read_done-IsOrderly ok chunk disk u n more o
Step-IsOrderly {u} (done now ms asked a) (reading c f a' l) = absurd (omega (arith, asked, f))
Step-IsOrderly {u} {n = n} (done now ms asked a) (finishing rs e c f a' l) =
    on_done-IsOrderly now ms n u rs e c f l
Step-IsOrderly {u} (done now ms asked a) (over rs entry commit e c f a' l k) = absurd (cc)

create-IsOrderly :
    (now : ℕ) (uuid peer cwd : Text) (files : Files) → IsOrderly (create now uuid peer cwd files) 0
unfolding create finishes reads
create-IsOrderly now uuid peer cwd files = reading refl refl refl refl

-- Whatever the stream and the disk do, where gRPC answers each read that was asked for with one
-- callback: a call has asked for one read more than it has had callbacks and has not called
-- `Finish`; or it has called `Finish` once, with its status, and every read has been answered; or it is
-- over after that, and has logged two entries, the second with the code of that status.
pub Reach-IsOrderly :
    {now : ℕ} {uuid peer cwd : Text} {files : Files} {u : Upload} {n : ℕ}
    → Reach now uuid peer cwd files u n
    → IsOrderly u n
Reach-IsOrderly begin = create-IsOrderly _ _ _ _ _
Reach-IsOrderly (later r st) = Step-IsOrderly st (Reach-IsOrderly r)
