-- ===== src/Server/Upload/Many.antt =====
-- Uploads under way at once, on one disk that does not fail.
pub mod Interleaved
use cccloud.Prelude.{
  arith, if_true, if_false, ==_iff, ◌≢◌, subst, sym, ap₂, ap, ℕ_discrete, inr, ◌∙◌, inl, Bool-cases,
  ℕ, Bool, true, false, List, [], ◌∷◌, ◌++◌, some, ◌≡◌, refl, update, if◌then◌else◌, ◌==◌,
}
use mathlib.Core.List.{append-nil, append_assoc}
use mathlib.Core.Option as Opt
use mathlib.Core.Logic.{if_pos, if_neg}
use cccloud.Text.{Text}
use cccloud.Server.{same_refl, same_refl, same, Files, put_file}
use cccloud.Server.Upload.{
  create, Chunk, Upload, start_read, append_to, on_read_done, make_directory, open_file,
  write_chunk, upload_path,
}
use cccloud.Server.Upload.Stores.{good_disk}

-- The disk that the calls share, and the calls; the files of a call's own record are not read.
pub record Uploads : Type 0 where
  pub shared : Files
  pub calls : ℕ → Upload

-- The call `i` as it sees the disk.
abbrev pub seen : ℕ → Uploads → Upload
seen i s = record (s.calls i) { files = s.shared }

-- gRPC hands a chunk to the call `i`.
pub arrive : ℕ → Chunk → Uploads → Uploads
arrive i chunk s =
    let u = on_read_done true chunk good_disk (seen i s) in
    record { shared = u.files; calls = update s.calls i u }

-- Chunks in the order in which they come, each with its call.
unfoldable pub arrive_all : List (ℕ × Chunk) → Uploads → Uploads
unfolding arrive
arrive_all [] s = s
arrive_all ((i, chunk) ∷ arrivals) s = arrive_all arrivals (arrive i chunk s)

-- The data of the chunks of the call `i`.
unfoldable pub data_of : ℕ → List (ℕ × Chunk) → Text
data_of i [] = []
data_of i ((j, chunk) ∷ arrivals) =
    let rest = data_of i arrivals in if i == j then chunk.payload ++ rest else rest

-- The first chunk of each call names the file that `name` says; `opened` are the calls that have had one.
unfoldable pub AreNamed : (ℕ → Text) → (ℕ → Bool) → List (ℕ × Chunk) → Type 0
AreNamed name opened [] = Unit
AreNamed name opened ((j, chunk) ∷ arrivals) =
    (opened j ≡ false → chunk.filename ≡ name j) × AreNamed name (update opened j true) arrivals

-- New calls, each with its own uuid.
unfoldable pub new_calls : ℕ → (ℕ → Text) → Text → Text → Files → Uploads
new_calls now uuid peer cwd files = record {
  shared = files;
  calls = λ i. create now (uuid i) peer cwd files;
}

-- Whether a chunk comes for the call `i`.
unfoldable pub comes_for : ℕ → List (ℕ × Chunk) → Bool
comes_for i [] = false
comes_for i ((j, chunk) ∷ arrivals) =
    let rest = comes_for i arrivals in if i == j then true else rest
