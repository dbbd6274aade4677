-- ===== src/Daemon/Start/Secret.antt =====
-- Where the token comes from: the four sources of `load_token` and their order.
use loraterm.Common.{
  ap, ◌≡◌, ◌↔◌, refl, sym, ◌∙◌, inl, inr, true, false, Option, none, some, is_empty, Bool-cases,
  Option-cases,
}
use loraterm.Text.{Text, chars, trim}
use loraterm.Config.{ok, map_err-eq-ok, load_token_file}
use loraterm.Config.File.{Config}
use loraterm.Config.Token.{IsTokenOf, load_token_file-IsTokenOf}
use loraterm.Daemon.Start.{
  World, from_config, file_token, config_token, variable_token, override_token, credential_token,
  load_token,
}

some_eq : {a b : Text} → some a ≡ some b → a ≡ b
some_eq e = cc e

module _ (w : World) (token : Text) where
  abbrev pub credential_path : Text → Text
  credential_path dir = w.join dir (chars "loraterm-token")

  -- No directory of credentials has the file, or the variable is not set.
  abbrev pub NoCredential : Option Text → Type 0
  NoCredential dir = (d : Text) → dir ≡ some d → w.exists (credential_path d) ≡ false

  abbrev pub NoVariable : Option Text → Type 0
  NoVariable variable = (v : Text) → variable ≡ some v → is_empty (trim v) ≡ true

  abbrev pub Private : Text → Type 0
  Private path = IsTokenOf w.metadata w.read_to_string path token

  -- The source of a token, given the two variables, the override and the path of the configuration:
  -- the first that there is. The files of the last and of the override have to be private.
  pub data Source (dir override_path variable token_file : Option Text) : Type 0 where
    credential :
        (d raw : Text)
        → dir ≡ some d
        → w.exists (credential_path d) ≡ true
        → w.read_to_string (credential_path d) ≡ some raw
        → token ≡ trim raw
        → Source dir override_path variable token_file
    overriding :
        (path : Text)
        → NoCredential dir
        → override_path ≡ some path
        → Private path
        → Source dir override_path variable token_file
    from_variable :
        (v : Text)
        → NoCredential dir
        → override_path ≡ none
        → variable ≡ some v
        → token ≡ trim v
        → is_empty token ≡ false
        → Source dir override_path variable token_file
    configured :
        (path : Text)
        → NoCredential dir
        → override_path ≡ none
        → NoVariable variable
        → token_file ≡ some path
        → Private path
        → Source dir override_path variable token_file

  file_token-Private : (path : Text) → file_token w path ≡ ok token → Private path
  unfolding file_token
  file_token-Private path e =
      (load_token_file-IsTokenOf w.metadata w.read_to_string path token).0
        (map_err-eq-ok from_config (load_token_file w.metadata w.read_to_string path) e)

  Private-file_token : (path : Text) → Private path → file_token w path ≡ ok token
  unfolding file_token
  Private-file_token path p =
      rw ((load_token_file-IsTokenOf w.metadata w.read_to_string path token).1 p) refl

  module _ (dir override_path : Option Text) (absent : NoCredential dir) where
    config_token-Source :
        (variable token_file : Option Text)
        → override_path ≡ none
        → NoVariable variable
        → config_token w token_file ≡ ok token
        → Source dir override_path variable token_file
    unfolding config_token
    config_token-Source variable none o n e = absurd (cc e)
    config_token-Source variable (some path) o n e =
        configured path absent o n refl (file_token-Private path e)

    variable_token-Source :
        (variable token_file : Option Text)
        → override_path ≡ none
        → variable_token w variable token_file ≡ ok token
        → Source dir override_path variable token_file
    unfolding variable_token
    variable_token-Source none token_file o e =
        config_token-Source none token_file o (λ v h. absurd (cc h)) e
    variable_token-Source (some v) token_file o e = elim (Bool-cases (is_empty (trim v))) [
      | inl blank ↦
          config_token-Source (some v) token_file o (λ u h. rw (← (some_eq h)) blank)
            (rw blank at e)
      | inr full ↦
          let same : token ≡ trim v = cc (rw full at e) in
          from_variable v absent o refl same (rw same full)
    ]

    override_token-Source :
        (token_file : Option Text)
        → override_token w override_path token_file ≡ ok token
        → Source dir override_path (w.env_var (chars "LORATERM_TOKEN")) token_file
    unfolding override_token
    override_token-Source token_file e = elim (Option-cases override_path) [
      | inl o ↦
          variable_token-Source (w.env_var (chars "LORATERM_TOKEN")) token_file o (simp o at e)
      | inr (path, o) ↦ overriding path absent o (file_token-Private path (simp o at e))
    ]

  credential_token-Source :
      (dir override_path token_file : Option Text)
      → credential_token w dir override_path token_file ≡ ok token
      → Source dir override_path (w.env_var (chars "LORATERM_TOKEN")) token_file
  unfolding credential_token
  credential_token-Source none override_path token_file e =
      override_token-Source none override_path (λ d h. absurd (cc h)) token_file e
  credential_token-Source (some dir) override_path token_file e =
      elim (Bool-cases (w.exists (credential_path dir))) [
        | inr missing ↦
            override_token-Source (some dir) override_path (λ d h. rw (← (some_eq h)) missing)
              token_file (rw missing at e)
        | inl there ↦ elim (Option-cases (w.read_to_string (credential_path dir))) [
          | inl unread ↦ absurd (cc (rw (there, unread) at e))
          | inr (raw, read) ↦ credential dir raw refl there read (cc (rw (there, read) at e))
        ]
      ]

  -- Without a credential the later steps decide.
  skip_credential :
      (dir override_path token_file : Option Text)
      → NoCredential dir
      → credential_token w dir override_path token_file ≡ override_token w override_path token_file
  unfolding credential_token
  skip_credential none override_path token_file absent = refl
  skip_credential (some dir) override_path token_file absent = rw (absent dir refl) refl

  skip_variable :
      (variable token_file : Option Text)
      → NoVariable variable
      → variable_token w variable token_file ≡ config_token w token_file
  unfolding variable_token
  skip_variable none token_file blank = refl
  skip_variable (some v) token_file blank = rw (blank v refl) refl

  Source-credential_token :
      (dir override_path token_file : Option Text)
      → Source dir override_path (w.env_var (chars "LORATERM_TOKEN")) token_file
      → credential_token w dir override_path token_file ≡ ok token
  unfolding override_token variable_token config_token credential_token
  Source-credential_token dir o file (credential d raw at there read same) =
      simp at (rw (there, read) (ap ok (sym same)))
  Source-credential_token dir o file (overriding path absent given private) =
      skip_credential dir o file absent ∙ simp given (Private-file_token path private)
  Source-credential_token dir o file (from_variable v absent given set same full) =
      skip_credential dir o file absent ∙ simp (given, set) (rw (← same) (rw full (ap ok refl)))
  Source-credential_token dir o file (configured path absent given blank at private) =
      skip_credential dir o file absent
      ∙ simp given (
          skip_variable (w.env_var (chars "LORATERM_TOKEN")) file blank
          ∙ simp at (Private-file_token path private))

-- A token is loaded exactly from the first source there is: the credential, if its file exists; the
-- file that overrides; the environment variable, unless it is blank; the file of the configuration.
-- It is the trimmed text of that source; the file that overrides and that of the configuration also
-- have to be private.
pub load_token-Source :
    (w : World) (config : Config) (override_path : Option Text) (token : Text)
    → (load_token w config override_path ≡ ok token)
      ↔ Source w token
          (w.env_var (chars "CREDENTIALS_DIRECTORY"))
          override_path
          (w.env_var (chars "LORATERM_TOKEN"))
          config.paths.token_file
unfolding load_token
load_token-Source w config o token =
    let dir = w.env_var (chars "CREDENTIALS_DIRECTORY") in
    (
      credential_token-Source w token dir o config.paths.token_file,
      Source-credential_token w token dir o config.paths.token_file,
    )
