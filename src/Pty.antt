-- ===== src/Pty.antt =====
-- src/pty.rs: the shell behind a terminal, and the two threads between the terminal and the channels
-- of a session. What the terminal, the file system and the shell do is a parameter or an input.
pub mod Shell
pub mod Threads
pub mod Lines
mod Tests
use loraterm.Common.{Bool, true, false, List, [], ◌∷◌, if◌then◌else◌}
use loraterm.Text.{Text, Bytes, chars}
use loraterm.Config.{Result, ok, err}

-- What is said of the shell to its builder, in the order of the calls.
pub data Setting : Type 0 where
  program arg cwd : Text → Setting
  env_clear : Setting
  env : (name value : Text) → Setting

pub bash_command : Text → List Setting
bash_command home =
    program (chars "/bin/bash")
    ∷ arg (chars "-i")
    ∷ env_clear
    ∷ env (chars "TERM") (chars "dumb")
    ∷ env (chars "PS1") (chars "$ ")
    ∷ env (chars "HOME") home
    ∷ env (chars "PATH") (chars "/usr/local/bin:/usr/bin:/bin")
    ∷ cwd home
    ∷ []

pub data PtyError : Type 0 where
  creating_home : Text → PtyError
  openpty spawning cloning_reader taking_writer : PtyError

-- Whether each of the calls succeeds. A failed `set_permissions` is ignored.
pub record PtySystem : Type 0 where
  pub create_dir_all : Text → Bool
  pub openpty : Bool
  pub spawn_command : List Setting → Bool
  pub try_clone_reader : Bool
  pub take_writer : Bool

-- The calls up to the two threads: the command that was spawned.
pub spawn_bash : PtySystem → Text → Result PtyError (List Setting)
unfolding bash_command
spawn_bash pty home =
    if pty.create_dir_all home
    then if pty.openpty
      then if pty.spawn_command (bash_command home)
        then if pty.try_clone_reader
          then if pty.take_writer then ok (bash_command home) else err taking_writer
          else err cloning_reader
        else err spawning
      else err openpty
    else err (creating_home home)

-- What `read` on the terminal gives.
pub data Read : Type 0 where
  got : Bytes → Read
  failed : Read

-- A read, and whether the channel for output still has its receiver then.
pub record Reading : Type 0 where
  pub read : Read
  pub is_open : Bool

-- A piece of output with what the thread does behind it; the flag says that it has left its loop.
pub on_read : Read → Bool → List Bytes × Bool → List Bytes × Bool
on_read (got []) is_open rest = ([], true)
on_read (got (b ∷ bytes)) is_open (sent, over) =
    if is_open then ((b ∷ bytes) ∷ sent, over) else ([], true)
on_read failed is_open rest = ([], true)

-- The loop of the reader thread: the pieces that it sends.
pub reader : List Reading → List Bytes × Bool
unfolding on_read
reader [] = ([], false)
reader (r ∷ rs) = on_read r.read r.is_open (reader rs)

-- A payload from the channel, and whether it can be written and flushed.
pub record Writing : Type 0 where
  pub bytes : Bytes
  pub write_all : Bool
  pub flush : Bool

-- The loop of the writer thread: the payloads that the terminal got whole.
pub writer : List Writing → List Bytes × Bool
writer [] = ([], false)
writer (w ∷ ws) =
    let (rest, over) = writer ws in
    if w.write_all
    then (if w.flush then (w.bytes ∷ rest, over) else (w.bytes ∷ [], true))
    else ([], true)
