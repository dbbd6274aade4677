-- ===== src/Client/Http.antt =====
-- src/api/client.rs, `CompanionClient`. The HTTP library and JSON are parameters: whether a header
-- value is accepted, whether the HTTP client can be built, what is answered to a request, and what
-- the body of an answer decodes to. A `Uuid` is its text.
pub mod Requests
use loraterm.Common.{
  ℕ, Bool, true, false, not, ◌&&◌, ◌==◌, leb, if◌then◌else◌, List, [], ◌∷◌, ◌++◌, Option, none,
  some,
}
use loraterm.Text.{Text, chars, trim_end_matches}
use loraterm.Config.{Result, ok, err, ◌>>=◌, map_err, ok_or}
use loraterm.Client.{ApiError, invalid_token, transport, json, map_status}

pub record Identity : Type 0 where
  pub id : Text
  pub name : Text
  pub scope : Text
  pub pubkey_hex : Option Text
  pub archived_at : Option Text

pub record CompanionClient : Type 0 where
  pub base_url : Text
  pub authorization : Text

-- A request with the value of its authorization header, and the fields of its form.
pub data Request : Type 0 where
  get : (authorization url : Text) → Request
  post : (authorization url : Text) (form : List (Text × Text)) → Request

-- An answer: its status, its body as a text if that can be read, and as bytes.
pub record Response : Type 0 where
  pub status : ℕ
  pub text : Option Text
  pub bytes : Option Text

-- `StatusCode::is_success`
unfoldable pub is_success : ℕ → Bool
is_success status = leb 200 status && leb status 299

abbrev pub text_or_default : Option Text → Text
text_or_default (some body) = body
text_or_default none = []

unfoldable pub is_slash : ℕ → Bool
is_slash c = c == b'/'

-- `CompanionClient::new`. `from_str` is that of `HeaderValue`, with the text of its error; `build`
-- says whether the builder of the HTTP client succeeds.
unfoldable pub connect :
    (Text → Result Text Text) → Bool → Text → Text → Result ApiError CompanionClient
unfolding is_slash
connect from_str build base_url token = do
  auth_value ← map_err invalid_token (from_str (chars "Bearer " ++ token))
  if build
      then ok (record { base_url = trim_end_matches is_slash base_url; authorization = auth_value })
      else err transport

unfoldable pub url : CompanionClient → Text → Text
url client path = client.base_url ++ path

-- What the network answers: nothing if the request fails.
module _ (send : Request → Option Response) (from_slice : Text → Option (List Identity)) where
  unfoldable pub list_identities : CompanionClient → Result ApiError (List Identity)
  unfolding is_success
  list_identities client = do
    resp ←
        ok_or transport
          (send (get client.authorization (url client (chars "/api/v1/companion/identities"))))
    if is_success resp.status
        then (ok_or transport resp.bytes >>= λ bytes. ok_or json (from_slice bytes))
        else err (map_status resp.status (text_or_default resp.text))

-- The request of `send_dm`.
unfoldable pub dm_request : CompanionClient → Text → Text → Text → Request
dm_request client identity_id peer_pubkey_hex text =
    post client.authorization (url client (chars "/api/v1/companion/messages/dm")) (
      (chars "identity_id", identity_id)
      ∷ (chars "peer_pubkey_hex", peer_pubkey_hex)
      ∷ (chars "text", text)
      ∷ [])

module _ (send : Request → Option Response) where
  unfoldable pub send_dm : CompanionClient → Text → Text → Text → Result ApiError (Unit {0})
  unfolding is_success
  send_dm client identity_id peer_pubkey_hex text = do
    resp ← ok_or transport (send (dm_request client identity_id peer_pubkey_hex text))
    if is_success resp.status
        then ok tt
        else err (map_status resp.status (text_or_default resp.text))
