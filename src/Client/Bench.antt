-- ===== src/Client/Bench.antt =====
-- client/async_client.cc: many tasks that upload, download and delete a file each.
pub mod Args
pub mod Dummy
use cccloud.Prelude.{
  ℕ, zero, suc, ◌+◌, ◌-◌, ◌*◌, ◌^◌, ◌<◌, ◌≤◌, ◌≡◌, ◌≢◌, refl, sym, ap, ◌∙◌, subst, ◌⊎◌, inl, inr,
  Bool, true, false, not, ◌&&◌, ◌||◌, List, [], ◌∷◌, ◌++◌, map, Option, none, some, arith, length,
  length-append, if◌then◌else◌, if_true, if_false, ◌==◌, ltb, leb, Bool-cases, Option-cases, u64,
}
use cccloud.Text.{Text, codes}
use cccloud.Text.Numbers.{to_string}

-- The file of the task `id`.
unfoldable pub task_file : ℕ → Text
task_file id = codes "test_" ++ (to_string id ++ codes ".bin")
