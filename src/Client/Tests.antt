-- ===== src/Client/Tests.antt =====
-- Small sessions and command lines of the clients, and their theorems at them.
use cccloud.Prelude.{◌≡◌, refl, arith, true, false, [], none, some}
use cccloud.Text.{Text, codes}
use cccloud.Text.Numbers.{value, parse_int, to_string}
use cccloud.Text.Numbers.Digits.{parse_int-to_string}
use cccloud.Stream.Loop.{whole}
use cccloud.Server.{Files, put_file, same}
use cccloud.Service.{Call, Reply}
use cccloud.Service.Upload.Stores.{good_disk}
use cccloud.Service.Delete.{delete_file}
use cccloud.Service.Delete.Answers.{Answered}
use cccloud.Client.Simple.Session.{Transport, IsReliable, upload, download, remove}
use cccloud.Client.Simple.Session.RoundTrip.{always, upload_then_download}
use cccloud.Client.Simple.Session.Flaws.{remove_reports_failure}
use cccloud.Client.Bench.Args.{Settings, defaults, parse_args}
use cccloud.Client.Bench.Args.Accepts.{command_line, parse_args-command_line}

abbrev call : Call
call = record { now = 7; later = 9; duration = 2; uuid = codes "id"; peer = codes "ipv4:1.2.3.4:5" }

-- A network on which nothing is lost.
abbrev net : Transport
net = record {
  up = λ chunks. chunks;
  down = λ messages. messages;
  of_exception = record { code = 2; message = codes "Unexpected error in RPC handling" };
}

net-IsReliable : IsReliable net
net-IsReliable = record {
  up_whole = λ chunks. refl;
  down_whole = λ messages. refl;
  exception_fails = λ e. absurd (omega (arith, e));
}

-- A local disk with the file `a` and the empty file `e`.
abbrev local_disk : Files
local_disk = put_file (codes "a") (some (codes "abc")) (put_file (codes "e") (some []) (λ q. none))

abbrev server_disk : Files
server_disk = put_file (codes "uploads/b") (some (codes "old")) (λ q. none)

file_a : local_disk (codes "a") ≡ some (codes "abc")
unfolding put_file
file_a = refl

file_e : local_disk (codes "e") ≡ some []
unfolding put_file
file_e = refl

upload_then_download_example :
    (r : Reply) × (out : Files) × (upload 4 net call good_disk whole always
        (codes "a")
        (codes "b")
        local_disk
        server_disk
      ≡ some (true, some r))
    × (download 4 net call true whole true whole (codes "b") (codes "c") local_disk r.files
        ≡ some (true, out))
    × (out (codes "c") ≡ some (codes "abc"))
    × ((q : Text) → same q (codes "c") ≡ false → out q ≡ local_disk q)
upload_then_download_example =
    upload_then_download net net-IsReliable 4 call call (codes "a") (codes "b") (codes "c")
      local_disk server_disk b'a' (codes "bc") file_a (omega arith)

remove_reports_failure_example :
    ((remove net call false (codes "b") server_disk).0 ≡ false)
    × Answered (codes "b") server_disk (delete_file call false (codes "b") server_disk)
    × ((remove net call false (codes "b") server_disk).1
        ≡ (delete_file call false (codes "b") server_disk).files)
remove_reports_failure_example = remove_reports_failure net call false (codes "b") server_disk

parse_int-to_string_example : parse_int 1000 (to_string 709) ≡ value false 709 []
parse_int-to_string_example = parse_int-to_string 1000 709 (omega arith)

abbrev small : Settings
small = record { concurrency = 2; chunks = 3; chunk_size = 10 }

parse_args-command_line_example : parse_args (command_line small) defaults ≡ some small
parse_args-command_line_example = parse_args-command_line small defaults (omega arith)
