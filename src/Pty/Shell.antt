-- ===== src/Pty/Shell.antt =====
-- What the shell gets to see of the daemon's environment.
use loraterm.Common.{
  ◌≡◌, refl, Bool, true, false, List, [], ◌∷◌, ◌++◌, Option, none, some, if◌then◌else◌,
}
use loraterm.Text.{Text, chars, eq_text}
use loraterm.Config.{Result, ok, err}
use loraterm.Pty.{Setting, program, arg, cwd, env_clear, env, bash_command, PtySystem, spawn_bash}

-- What the builder of a command documents of its environment, its working directory and its
-- arguments, the program first.
pub record IsBuilder (Env : Type 0) (lookup : Text → Env → Option Text)
    (directory : Env → Option Text) (argv : Env → List Text) (apply : Setting → Env → Env)
    : Type 0 where
  pub cwd_set : (s : Text) (e : Env) → directory (apply (cwd s) e) ≡ some s
  pub directory_program : (s : Text) (e : Env) → directory (apply (program s) e) ≡ directory e
  pub directory_arg : (s : Text) (e : Env) → directory (apply (arg s) e) ≡ directory e
  pub directory_cleared : (e : Env) → directory (apply env_clear e) ≡ directory e
  pub directory_env :
      (name value : Text) (e : Env) → directory (apply (env name value) e) ≡ directory e
  pub program_set : (s : Text) (e : Env) → argv (apply (program s) e) ≡ s ∷ []
  pub arg_added : (s : Text) (e : Env) → argv (apply (arg s) e) ≡ argv e ++ s ∷ []
  pub argv_cwd : (s : Text) (e : Env) → argv (apply (cwd s) e) ≡ argv e
  pub argv_cleared : (e : Env) → argv (apply env_clear e) ≡ argv e
  pub argv_env : (name value : Text) (e : Env) → argv (apply (env name value) e) ≡ argv e
  pub program_kept : (k s : Text) (e : Env) → lookup k (apply (program s) e) ≡ lookup k e
  pub arg_kept : (k s : Text) (e : Env) → lookup k (apply (arg s) e) ≡ lookup k e
  pub cwd_kept : (k s : Text) (e : Env) → lookup k (apply (cwd s) e) ≡ lookup k e
  pub cleared : (k : Text) (e : Env) → lookup k (apply env_clear e) ≡ none
  pub set :
      (k name value : Text) (e : Env)
      → lookup k (apply (env name value) e) ≡ (if eq_text name k then some value else lookup k e)

abbrev pub apply_all : {Env : Type 0} → (Setting → Env → Env) → List Setting → Env → Env
apply_all apply [] e = e
apply_all apply (s ∷ ss) e = apply_all apply ss (apply s e)

-- The four variables that are meant for the shell.
abbrev pub variable : Text → Text → Option Text
variable home k =
    if eq_text (chars "PATH") k
    then some (chars "/usr/local/bin:/usr/bin:/bin")
    else if eq_text (chars "HOME") k
    then some home
    else if eq_text (chars "PS1") k
    then some (chars "$ ")
    else if eq_text (chars "TERM") k
    then some (chars "dumb")
    else none

-- A call that has to succeed in front of the rest.
if_ok :
    {E A : Type 0} (c : Bool) (r : Result E A) (x : E) {a : A}
    → (if c then r else err x) ≡ ok a
    → (c ≡ true) × (r ≡ ok a)
if_ok true r x e = (refl, e)
if_ok false r x e = absurd (cc e)

module _ {Env : Type 0} (lookup : Text → Env → Option Text) (directory : Env → Option Text)
    (argv : Env → List Text) (apply : Setting → Env → Env)
    (b : IsBuilder Env lookup directory argv apply) where
  bash_command-lookup :
      (home k : Text) (inherited : Env)
      → lookup k (apply_all apply (bash_command home) inherited) ≡ variable home k
  unfolding bash_command
  bash_command-lookup home k inherited = rw (b.cwd_kept, b.set, b.set, b.set, b.set, b.cleared) refl

  bash_command-directory :
      (home : Text) (inherited : Env)
      → directory (apply_all apply (bash_command home) inherited) ≡ some home
  unfolding bash_command
  bash_command-directory home inherited = rw b.cwd_set refl

  bash_command-argv :
      (home : Text) (inherited : Env)
      → argv (apply_all apply (bash_command home) inherited) ≡ chars "/bin/bash" ∷ chars "-i" ∷ []
  unfolding bash_command
  bash_command-argv home inherited =
      rw
        (
          b.argv_cwd, b.argv_env, b.argv_env, b.argv_env, b.argv_env, b.argv_cleared, b.arg_added,
          b.program_set,
        )
        refl

  -- A shell that is spawned is an interactive bash in the home directory, which could be made, and
  -- sees of the daemon's
  -- environment nothing, whatever that holds: each of its variables is one of the four that are set.
  pub spawn_bash-IsSealed :
      (pty : PtySystem) (home : Text) {command : List Setting}
      → spawn_bash pty home ≡ ok command
      → (pty.create_dir_all home ≡ true)
        × (pty.spawn_command command ≡ true)
        × ((inherited : Env) → directory (apply_all apply command inherited) ≡ some home)
        × ((inherited : Env)
            → argv (apply_all apply command inherited) ≡ chars "/bin/bash" ∷ chars "-i" ∷ [])
        × ((k : Text) (inherited : Env)
            → lookup k (apply_all apply command inherited) ≡ variable home k)
  unfolding spawn_bash
  spawn_bash-IsSealed pty home {command} e =
      let (made, spawned, same) = parts in
      (
        made,
        rw (← same) spawned,
        λ inherited. rw (← same) (bash_command-directory home inherited),
        λ inherited. rw (← same) (bash_command-argv home inherited),
        λ k inherited. rw (← same) (bash_command-lookup home k inherited),
      )
    where
      parts :
          (pty.create_dir_all home ≡ true)
          × (pty.spawn_command (bash_command home) ≡ true)
          × (bash_command home ≡ command)
      parts =
          let (made, e1) = if_ok (pty.create_dir_all home) _ _ e in
          let (opened, e2) = if_ok pty.openpty _ _ e1 in
          let (spawned, e3) = if_ok (pty.spawn_command (bash_command home)) _ _ e2 in
          let (readable, e4) = if_ok pty.try_clone_reader _ _ e3 in
          let (writable, e5) = if_ok pty.take_writer _ _ e4 in (made, spawned, cc e5)
