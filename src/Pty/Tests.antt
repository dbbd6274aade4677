-- ===== src/Pty/Tests.antt =====
-- A shell on concrete inputs.
use loraterm.Common.{◌≡◌, refl, true, false, List, [], ◌∷◌, ◌++◌, Option, none, some, if◌then◌else◌}
use loraterm.Text.{Text, chars, eq_text}
use loraterm.Config.{ok}
use loraterm.Pty.{
  on_read, Setting, program, arg, cwd, env_clear, env, PtySystem, bash_command, spawn_bash, Reading,
  got, failed, reader,
}
use loraterm.Pty.Shell.{IsBuilder, apply_all, variable, spawn_bash-IsSealed}
use loraterm.Pty.Lines.{Typing}

abbrev Variables : Type 0
Variables = List (Text × Text)

-- The variables, the working directory and the arguments of a command.
abbrev Env : Type 0
Env = Variables × Option Text × List Text

abbrev find : Text → Variables → Option Text
find k [] = none
find k ((name, value) ∷ e) = if eq_text name k then some value else find k e

abbrev lookup : Text → Env → Option Text
lookup k e = find k e.0

abbrev apply : Setting → Env → Env
apply (program s) (vars, dir, args) = (vars, dir, s ∷ [])
apply (arg s) (vars, dir, args) = (vars, dir, args ++ s ∷ [])
apply (cwd s) (vars, dir, args) = (vars, some s, args)
apply env_clear (vars, dir, args) = ([], dir, args)
apply (env name value) (vars, dir, args) = ((name, value) ∷ vars, dir, args)

builder : IsBuilder Env lookup (λ e. e.1) (λ e. e.2) apply
builder = record {
  cwd_set = λ s e. refl;
  directory_program = λ s e. refl;
  directory_arg = λ s e. refl;
  directory_cleared = λ e. refl;
  directory_env = λ name value e. refl;
  program_set = λ s e. refl;
  arg_added = λ s e. refl;
  argv_cwd = λ s e. refl;
  argv_cleared = λ e. refl;
  argv_env = λ name value e. refl;
  program_kept = λ k s e. refl;
  arg_kept = λ k s e. refl;
  cwd_kept = λ k s e. refl;
  cleared = λ k e. refl;
  set = λ k name value e. refl;
}

abbrev pty : PtySystem
pty = record {
  create_dir_all = λ path. true;
  openpty = true;
  spawn_command = λ settings. true;
  try_clone_reader = true;
  take_writer = true;
}

abbrev home : Text
home = chars "/srv/peer"

spawn-bash : spawn_bash pty home ≡ ok (bash_command home)
unfolding spawn_bash
spawn-bash = refl

spawn_bash-IsSealed_example :
    (pty.create_dir_all home ≡ true)
    × (pty.spawn_command (bash_command home) ≡ true)
    × ((inherited : Env) → (apply_all apply (bash_command home) inherited).1 ≡ some home)
    × ((inherited : Env)
        → (apply_all apply (bash_command home) inherited).2 ≡ chars "/bin/bash" ∷ chars "-i" ∷ [])
    × ((k : Text) (inherited : Env)
        → lookup k (apply_all apply (bash_command home) inherited) ≡ variable home k)
spawn_bash-IsSealed_example =
    spawn_bash-IsSealed lookup (λ e. e.1) (λ e. e.2) apply builder pty home spawn-bash

abbrev readings : List Reading
readings =
    (record { read = got (chars "a.txt\n"); is_open = true })
    ∷ (record { read = got (chars "$ "); is_open = true })
    ∷ (record { read = failed; is_open = true })
    ∷ []

read-pieces : reader readings ≡ (chars "a.txt\n" ∷ chars "$ " ∷ [], true)
unfolding reader on_read
read-pieces = refl

-- The second write fails.
abbrev typings : List Typing
typings = (chars "ls", true, true) ∷ (chars "pwd", false, true) ∷ (chars "id", true, true) ∷ []
