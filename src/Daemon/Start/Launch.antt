-- ===== src/Daemon/Start/Launch.antt =====
-- What holds of the daemon when its loop starts, and what that makes of its runs.
use loraterm.Common.{All, subst, ◌≡◌, refl, sym, ap, ◌∙◌, true, List, [], ◌++◌, some}
use loraterm.Text.{trim_end_matches, Text, chars, trim}
use loraterm.Config.{ok, from_ok, map_err, map_err-eq-ok, WhitelistFile, load}
use loraterm.Config.File.{load_config}
use loraterm.Config.Load.{IsLoaded, load-IsLoaded}
use loraterm.Client.{new}
use loraterm.Client.Token.{IsToken, new-IsToken}
use loraterm.Client.Http.{is_slash, Identity, connect, list_identities}
use loraterm.Client.Http.Requests.{connect-eq-ok}
use loraterm.Daemon.{Input, run}
use loraterm.Daemon.Invariant.{IsTrusted, run-IsTrusted}
use loraterm.Daemon.Sessions.End.{SeenClosed, Ended, run-Ended}
use loraterm.Daemon.Start.{
  World, from_config, from_api, DaemonArgs, load_token, resolve_identity, Started, path_or, start,
}
use loraterm.Daemon.Start.Secret.{Source, load_token-Source}
use loraterm.Daemon.Start.Identify.{IsChosen, resolve_identity-IsChosen}

-- A start that succeeded: the configuration was loaded; the whitelist was loaded from the file given
-- by the argument or else by the configuration; the token comes from the first source there is and is
-- well formed; with every request the client sends this token to the address of the configuration;
-- the identity is listed by the service and chosen. The daemon has
-- no session and did nothing yet.
pub record IsStarted (w : World) (args : DaemonArgs) (s : Started w) : Type 0 where
  pub configured : load_config w.read_to_string w.parse_config args.config_path ≡ ok s.config
  pub path : s.whitelist_path ≡ path_or w args.whitelist_override s.config.paths.whitelist
  pub raw_list : Text
  pub file : WhitelistFile
  pub read_list : w.read_to_string s.whitelist_path ≡ some raw_list
  pub parsed : w.parse_whitelist raw_list ≡ some file
  pub loaded : IsLoaded file s.daemon.whitelist.entries
  pub raw : Text
  pub source :
      Source w raw
        (w.env_var (chars "CREDENTIALS_DIRECTORY"))
        args.token_override
        (w.env_var (chars "LORATERM_TOKEN"))
        s.config.paths.token_file
  pub token : IsToken (trim raw)
  pub sends : w.header_value (chars "Bearer " ++ trim raw) ≡ ok s.client.authorization
  pub base_url : s.client.base_url ≡ trim_end_matches is_slash s.config.bridge.base_url
  pub identities : List Identity
  pub listed : list_identities w.send w.parse_identities s.client ≡ ok identities
  pub chosen : IsChosen s.config.identity.id identities s.identity_id
  pub no_peers : s.daemon.peers ≡ []
  pub no_effects : s.daemon.effects ≡ []

module _ (w : World) (args : DaemonArgs) where
  -- A daemon whose start succeeds has its configuration, a whitelist whose keys are canonical and
  -- differ from one another, a well-formed token from the first source there is, and an identity that
  -- the service lists for it. The header of its client is what becomes of `Bearer ` with that token,
  -- and the address of its client is the one of the configuration without slashes at its end. It
  -- starts with no session.
  pub start-IsStarted : (s : Started w) → start w args ≡ ok s → IsStarted w args s
  unfolding start
  start-IsStarted s e =
      from_ok (map_err from_config (load_config w.read_to_string w.parse_config args.config_path)) _
        e
        λ config c e1.
          from_ok
            (map_err from_config (
              load w.read_to_string w.parse_whitelist
                (path_or w args.whitelist_override config.paths.whitelist)))
            _ e1
            λ list l e2. from_ok (load_token w config args.token_override) _ e2 λ raw r e3.
              from_ok (map_err from_api (new raw)) _ e3 λ token t e4.
                from_ok
                  (map_err from_api (connect w.header_value w.build config.bridge.base_url token)) _
                  e4
                  λ client b e5. from_ok (resolve_identity w client config) _ e5 λ id i e6.
                    let path = path_or w args.whitelist_override config.paths.whitelist in
                    let (raw_list, file, read_list, parsed, loaded) =
                      load-IsLoaded w.read_to_string w.parse_whitelist path (
                        map_err-eq-ok from_config (load w.read_to_string w.parse_whitelist path)
                          l) in
                    let (trimmed, well_formed) =
                      (new-IsToken raw token).0 (map_err-eq-ok from_api (new raw) t) in
                    let (identities, listed, chosen) =
                      (resolve_identity-IsChosen w client config id).0 i in
                    let (authorization, accepted, made) =
                      connect-eq-ok w.header_value w.build config.bridge.base_url token (
                        map_err-eq-ok from_api
                          (connect w.header_value w.build config.bridge.base_url token) b) in
                    let same : record {
                      config = config;
                      whitelist_path = path;
                      client = client;
                      identity_id = id;
                      daemon = record {
                        whitelist = list;
                        peers = [];
                        next_session = 0;
                        effects = [];
                      };
                    }
                        ≡ s =
                      cc e6 in
                    subst (IsStarted w args) same (record {
                      configured =
                          map_err-eq-ok from_config
                            (load_config w.read_to_string w.parse_config args.config_path) c;
                      path = refl;
                      raw_list = raw_list;
                      file = file;
                      read_list = read_list;
                      parsed = parsed;
                      loaded = loaded;
                      raw = raw;
                      source = (load_token-Source w config args.token_override raw).0 r;
                      token = well_formed;
                      sends =
                          rw (← trimmed) (accepted ∙ ap ok (sym (ap (λ c. c.authorization) made)));
                      base_url = ap (λ c. c.base_url) made;
                      identities = identities;
                      listed = listed;
                      chosen = chosen;
                      no_peers = refl;
                      no_effects = refl;
                    })

  -- A daemon that was started keeps to its whitelist whatever it receives: every session in its
  -- registry belongs to a peer of the whitelist in force. Once its loop has ended the registry is
  -- empty, and every session that was started was told to shut down or was met closed.
  pub run-start :
      {Value : Type 0} (s : Started w) (is : List (Input Value))
      → start w args ≡ ok s
      → IsTrusted (run is s.daemon).0
        × ((run is s.daemon).1 ≡ true
            → ((run is s.daemon).0.peers ≡ [])
              × All (Ended (SeenClosed is) (run is s.daemon).0.effects) (run is s.daemon).0.effects)
  run-start s is e =
      let ready = start-IsStarted s e in
      (run-IsTrusted is s.daemon (rw ready.no_peers tt), run-Ended is s.daemon ready.no_effects)
