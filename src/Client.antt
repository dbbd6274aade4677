-- ===== src/Client.antt =====
-- src/api/client.rs: the bearer token, and the errors that response statuses stand for. A status is
-- its number; the body is what `resp.text()` gives, empty if it fails.
pub mod Token
pub mod Http
mod Tests
use loraterm.Common.{
  ℕ, Bool, not, ◌||◌, Option, none, some, ◌==◌, ltb, if◌then◌else◌, is_empty, all, take, ◌++◌,
}
use loraterm.Text.{Text, chars, len, trim, is_ascii_graphic, decimal}
use loraterm.Config.{Result, ok, err}

-- The errors of the HTTP library and of JSON keep no payload.
pub data ApiError : Type 0 where
  invalid_token : Text → ApiError
  transport json unauthorized not_found conflict service_unavailable : ApiError
  forbidden : Text → ApiError
  unexpected : (status : ℕ) (body : Text) → ApiError

-- `Token::new` behind `trim`, and `Token::new`.
unfoldable pub check_token : Text → Result ApiError Text
check_token t =
    if is_empty t
    then err (invalid_token (chars "empty"))
    else if ltb (len t) 16 || ltb 128 (len t)
    then err (invalid_token (chars "unexpected length " ++ decimal (len t)))
    else if not (all is_ascii_graphic t)
    then err (invalid_token (chars "non-graphic ASCII"))
    else ok t

unfoldable pub new : Text → Result ApiError Text
new raw = check_token (trim raw)

-- `Debug` of a token shows its first four characters.
pub debug_token : Text → Text
debug_token t = chars "Token(\"" ++ (take 4 t ++ chars "…\")")

pub map_status : ℕ → Text → ApiError
map_status status body =
    if status == 401
    then unauthorized
    else if status == 403
    then forbidden body
    else if status == 404
    then not_found
    else if status == 409
    then conflict
    else if status == 503
    then service_unavailable
    else unexpected status body
