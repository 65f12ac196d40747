-- ===== src/Client/Command.antt =====
-- client/naive_client.cc, `main`: which call a command line makes.
pub mod Flaws
use cccloud.Prelude.{
  ℕ, zero, suc, ◌+◌, ◌-◌, ◌*◌, ◌^◌, ◌<◌, ◌≤◌, ◌≡◌, ◌≢◌, refl, sym, ap, ◌∙◌, subst, ◌⊎◌, inl, inr,
  Bool, true, false, not, ◌&&◌, ◌||◌, List, [], ◌∷◌, ◌++◌, map, Option, none, some, arith, length,
  length-append, if◌then◌else◌, if_true, if_false, ◌==◌, ltb, leb, Bool-cases, Option-cases, u64,
}
use cccloud.Text.{Text, codes}
use cccloud.Server.{same}

-- The exit code is 1 for `usage` and `invalid`.
pub data Action : Type 0 where
  usage invalid : Action
  upload : (local remote : Text) → Action
  download : (remote local : Text) → Action
  delete : (remote : Text) → Action

pub argument : ℕ → List Text → Text
argument i [] = []
argument zero (arg ∷ args) = arg
argument (suc i) (arg ∷ args) = argument i args

-- `argv` from the command on; `argc` counts the program's name too.
unfoldable pub action : List Text → Action
unfolding argument
action args =
    let argc = length args + 1 in
    let cmd = argument 0 args in
    if ltb argc 4
    then usage
    else (if same cmd (codes "upload") && argc == 4
        then upload (argument 1 args) (argument 2 args)
        else (if same cmd (codes "download") && argc == 4
            then download (argument 1 args) (argument 2 args)
            else (if same cmd (codes "delete") && argc == 3
                then delete (argument 1 args)
                else invalid)))
