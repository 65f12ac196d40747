-- ===== src/Server.antt =====
-- server/: the calls of the asynchronous server as state machines over their callbacks. What a call
-- asks of gRPC is the list of its requests; gRPC, the clock and the disk choose what happens next.
pub mod Upload
pub mod Download
pub mod Delete
mod Tests
use cccloud.Prelude.{
  refl, arith, ◌≡◌, ℕ, Bool, true, false, ◌&&◌, List, [], ◌∷◌, ◌++◌, Option, none, some, map,
  if◌then◌else◌, ◌==◌,
}
use cccloud.Text.{Text, codes}
use cccloud.Logger.{StatusCode, code_ok, code_internal}

-- `grpc::Status`, whose default is OK.
pub record Status : Type 0 where
  pub code : StatusCode
  pub message : Text

abbrev pub ok_status : Status
ok_status = record { code = code_ok; message = [] }

abbrev pub internal_error : Text → Status
internal_error msg = record { code = code_internal; message = msg }

-- `UploadResponse` and `DeleteResponse`.
pub record Response : Type 0 where
  pub success : Bool
  pub message : Text

abbrev pub empty_response : Response
empty_response = record { success = false; message = [] }

abbrev words : List Text → Text
words [] = []
words (arg ∷ args) = codes " " ++ (arg ++ words args)

-- The `format_msg` of each call.
unfoldable pub format_msg : Text → List Text → Text
format_msg uuid args = codes "Server [" ++ (uuid ++ (codes "]" ++ words args))

abbrev pub same : Text → Text → Bool
same [] [] = true
same (c ∷ s) (d ∷ t) = c == d && same s t
same _ _ = false

-- The files on the disk, by path.
abbrev pub Files : Type 0
Files = Text → Option Text

unfoldable pub put_file : Text → Option Text → Files → Files
put_file path content files q = if same q path then content else files q

-- `operator/` of `std::filesystem::path`: an absolute path replaces the one before it.
unfoldable pub join : Text → Text → Text
join dir [] = dir ++ codes "/"
join dir (c ∷ name) = if c == b'/' then c ∷ name else dir ++ (codes "/" ++ (c ∷ name))

pub same_refl : (s : Text) → same s s ≡ true
same_refl [] = refl
same_refl (c ∷ s) = ground (arith, same_refl s)
