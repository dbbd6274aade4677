-- ===== src/Daemon/Start/Main.antt =====
-- src/main.rs, and what `run` of src/daemon.rs hands to the task of the stream. The parser of the
-- command line (`clap`) is a parameter: what it makes of the arguments, the environment and the
-- defaults, if it does not end the program.
use loraterm.Common.{◌≡◌, ap, ◌++◌, Option}
use loraterm.Text.{Text, chars, trim, trim_end_matches}
use loraterm.Config.{ok}
use loraterm.Client.Http.{get, is_slash}
use loraterm.Sse.Task.{SseStream, new, stream_url, stream_request}
use loraterm.Daemon.Start.{World, DaemonArgs, Started, start, Fallible}
use loraterm.Daemon.Start.Launch.{IsStarted, start-IsStarted}

pub record Cli : Type 0 where
  pub config : Text
  pub whitelist : Option Text
  pub token_file : Option Text
  pub sse_raw_log : Option Text

pub daemon_args : Cli → DaemonArgs
daemon_args cli = record {
  config_path = cli.config;
  whitelist_override = cli.whitelist;
  token_override = cli.token_file;
  sse_raw_log = cli.sse_raw_log;
}

module _ (w : World) where
  pub main : Cli → Fallible (Started w)
  unfolding daemon_args
  main cli = start w (daemon_args cli)

  -- The stream that a daemon listens to.
  pub sse_stream : DaemonArgs → Started w → SseStream
  sse_stream args s = new s.client s.identity_id args.sse_raw_log

  -- A daemon that was started listens to the stream of the identity that it chose, at the service
  -- of its configuration, with the token from the first source there is.
  main-stream_request :
      (cli : Cli) (s : Started w)
      → main cli ≡ ok s
      → (i : IsStarted w (daemon_args cli) s) × (authorization : Text) × (w.header_value
            (chars "Bearer " ++ trim i.raw)
          ≡ ok authorization)
        × (stream_request (sse_stream (daemon_args cli) s)
            ≡ get authorization (
                trim_end_matches is_slash s.config.bridge.base_url
                ++ (chars "/api/v1/companion/identities/" ++ (s.identity_id ++ chars "/stream"))))
  unfolding main sse_stream stream_request stream_url new
  main-stream_request cli s e =
      let i = start-IsStarted w (daemon_args cli) s e in
      (
        i,
        s.client.authorization,
        i.sends,
        ap
            (λ url. get s.client.authorization (
              url ++ (chars "/api/v1/companion/identities/" ++ (s.identity_id ++ chars "/stream"))))
            i.base_url,
      )
