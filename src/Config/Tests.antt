-- ===== src/Config/Tests.antt =====
-- Runs of the code of src/config.rs on concrete inputs.
use loraterm.Common.{ℕ, ◌≡◌, refl, [], ◌∷◌, ◌++◌, List, some, none, Option, replicate}
use loraterm.Text.{is_ascii_hexdigit, len, Text, chars, eq_text, trim, to_ascii_lowercase}
use loraterm.Config.{
  duplicate_pubkey, ok, err, PeerEntry, WhitelistFile, ValidatedPeer, Whitelist, validate_pubkey,
  load_peers, load, has,
}
use loraterm.Config.{load_token_file}

abbrev key_a : Text
key_a = replicate 64 b'a'

abbrev key_b : Text
key_b = replicate 64 b'b'

-- As it may stand in a file: in capitals, with blanks around it.
abbrev raw_a : Text
raw_a = chars "  " ++ replicate 64 b'A' ++ chars " "

validate-raw_a : validate_pubkey raw_a ≡ ok key_a
unfolding validate_pubkey len trim is_ascii_hexdigit to_ascii_lowercase
validate-raw_a = refl

abbrev entry : Text → PeerEntry
entry key = record { pubkey = key; nickname = none; idle_timeout = none; dm_max_chars = none }

abbrev file : WhitelistFile
file = record {
  default_idle_timeout = some 1800000;
  default_dm_max_chars = none;
  peers = entry raw_a ∷ entry key_b ∷ [];
}

abbrev peer : Text → ValidatedPeer
peer key = record {
  pubkey = key;
  nickname = none;
  idle_timeout = some 1800000;
  dm_max_chars = none;
}

abbrev both : Whitelist
both = record { entries = peer key_a ∷ peer key_b ∷ [] }

abbrev only_b : Whitelist
only_b = record { entries = peer key_b ∷ [] }

-- The file system and the TOML parser, for the one file there is.
abbrev read_to_string : Text → Option Text
read_to_string path = some (chars "peers")

abbrev from_str : Text → Option WhitelistFile
from_str raw = some file

load-file : load read_to_string from_str (chars "w.toml") ≡ ok both
unfolding load load_peers validate_pubkey len trim is_ascii_hexdigit has eq_text to_ascii_lowercase
load-file = refl

abbrev doubled : List PeerEntry
doubled = entry key_b ∷ entry key_a ∷ entry raw_a ∷ []

load_peers-doubled :
    load_peers (chars "w.toml") file 0 [] doubled ≡ err (duplicate_pubkey (chars "w.toml") key_a)
unfolding load_peers validate_pubkey len trim is_ascii_hexdigit has eq_text to_ascii_lowercase
load_peers-doubled = refl

-- A token file of mode 0400, as `metadata` shows it with the file type.
abbrev metadata : Text → Option ℕ
metadata path = some 0x8100

abbrev read_token : Text → Option Text
read_token path = some (chars "secret\n")

load-token : load_token_file metadata read_token (chars "token") ≡ ok (chars "secret")
unfolding load_token_file trim
load-token = refl
