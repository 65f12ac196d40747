-- ===== src/Logger/Roll.antt =====
-- logger/async_logger.hpp, `get_current_log_file_path` and `open_log_file`: a directory for each date,
-- and in it the files `1.txt`, `2.txt` and so on, each up to a size.
pub mod Day
pub mod Keeps
pub mod Flaws
use cccloud.Prelude.{
  ℕ, ◌+◌, Bool, true, false, ◌&&◌, ◌||◌, List, [], ◌∷◌, ◌++◌, Option, none, some, length,
  if◌then◌else◌, ◌==◌, leb,
}
use cccloud.Text.{Text}
use cccloud.Server.{same}

-- `MAX_LOG_FILE_SIZE`.
abbrev pub max_log_file_size : ℕ
max_log_file_size = 33554432

-- The directories that there are, by date; the files in them, by date and number; and the member
-- `current_file_index_`, an `int` that the program does not count to its end.
pub record Roller : Type 0 where
  pub dated : Text → Bool
  pub files : Text → ℕ → Option Text
  pub current_file_index : ℕ

-- What the disk allows: to make a directory, to create a file, and to open the one that the path
-- names.
pub record Disk : Type 0 where
  pub makes : Bool
  pub creates : Bool
  pub opens : Bool

abbrev pub text_of : Option Text → Text
text_of none = []
text_of (some s) = s

-- A file opened with `app`, and what is written to it.
pub append_file : Text → ℕ → Text → Roller → Roller
append_file date i text r = record r {
  files =
      λ d j. if same d date && j == i then some (text_of (r.files date i) ++ text) else r.files d j;
}

-- The label `create_file`; `none` is the exception that ends the program.
pub create_file : Disk → Text → Roller → Option ℕ × Roller
unfolding append_file
create_file disk date r =
    if disk.creates
    then (some r.current_file_index, append_file date r.current_file_index [] r)
    else (none, r)

-- The branches on `ec` and on the size of the file that `current_file_index_` names.
pub by_size : Disk → Text → Roller → Option Text → Option ℕ × Roller
unfolding create_file
by_size disk date r none = create_file disk date r
by_size disk date r (some content) =
    if leb max_log_file_size (length content)
    then create_file disk date (record r { current_file_index = r.current_file_index + 1 })
    else (some r.current_file_index, r)

pub get_current_log_file_path : Disk → Text → Roller → Option ℕ × Roller
unfolding by_size
get_current_log_file_path disk date r =
    if r.dated date
    then by_size disk date r (r.files date r.current_file_index)
    else (if disk.makes
        then (some 1, record r { dated = λ d. same d date || r.dated d })
        else (none, r))

pub write_to : Disk → Text → Text → Option ℕ × Roller → Option Roller
unfolding append_file
write_to disk date text (none, r) = none
write_to disk date text (some i, r) = if disk.opens then some (append_file date i text r) else none

-- A turn of the background thread: the file is opened, and the batch's text goes to it.
pub write_batch : Disk → Text → Text → Roller → Option Roller
unfolding get_current_log_file_path write_to
write_batch disk date text r = write_to disk date text (get_current_log_file_path disk date r)

pub write_rest : (Roller → Option Roller) → Option Roller → Option Roller
write_rest write none = none
write_rest write (some r) = write r

-- The batches of one date.
unfoldable pub write_batches : Disk → Text → List Text → Roller → Option Roller
unfolding write_batch write_rest
write_batches disk date [] r = some r
write_batches disk date (text ∷ texts) r =
    write_rest (write_batches disk date texts) (write_batch disk date text r)
