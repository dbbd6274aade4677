-- ===== src/Client/Tests.antt =====
-- Runs of `Token::new` on concrete inputs.
use loraterm.Common.{◌≡◌, refl, ◌++◌, replicate}
use loraterm.Text.{decimal, is_ascii_graphic, len, Text, chars, trim}
use loraterm.Config.{ok, err}
use loraterm.Client.{some, none, Option, check_token, new, invalid_token}
use loraterm.Client.Http.{
  is_success, CompanionClient, Request, Response, get, post, dm_request, send_dm,
}

abbrev letters : Text
letters = replicate 32 b'A'

new-letters : new (letters ++ chars "\n") ≡ ok letters
unfolding new check_token trim len is_ascii_graphic
new-letters = refl

new-short : new (chars "short") ≡ err (invalid_token (chars "unexpected length 5"))
unfolding new check_token trim len decimal
new-short = refl

abbrev client : CompanionClient
client = record { base_url = chars "http://localhost:8080"; authorization = chars "Bearer x" }

-- A service that accepts what is posted.
abbrev service : Request → Option Response
service (get authorization url) = none
service (post authorization url form) = some (record { status = 202; text = none; bytes = none })

sent : send_dm service client (chars "1") letters (chars "hi") ≡ ok tt
unfolding send_dm dm_request is_success
sent = refl
