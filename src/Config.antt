-- ===== src/Config.antt =====
-- src/config.rs: the whitelist with its validation and lookup, the difference of two whitelists, the
-- defaults, and the token file. Durations are milliseconds; paths and keys are texts. Reading a file
-- and `toml::from_str` are parameters; an error keeps its path and data, not its source error.
pub mod Keys
pub mod Load
pub mod Diff
pub mod Token
pub mod File
mod Tests
use loraterm.Common.{
  ℕ, ◌≡◌, ◌⊎◌, inl, inr, refl, suc, ◌+◌, ◌*◌, ◌%◌, ◌^◌, Bool, true, false, not, ◌&&◌, List, [], ◌∷◌,
  ◌++◌, map, Option, none, some, ◌==◌, if◌then◌else◌, any, all, retain,
}
use loraterm.Text.{Text, chars, len, trim, is_ascii_hexdigit, to_ascii_lowercase, eq_text, decimal}

pub data ConfigError : Type 0 where
  read parse : Text → ConfigError
  invalid_pubkey : (path : Text) (index : ℕ) (reason : Text) → ConfigError
  insecure_permissions : (path : Text) (mode : ℕ) → ConfigError
  duplicate_pubkey : (path pubkey : Text) → ConfigError

pub data Result {ℓ} (E : Type ℓ) (A : Type ℓ) : Type ℓ where
  ok : A → Result E A
  err : E → Result E A

infixl 5 ◌>>=◌
abbrev pub ◌>>=◌ {ℓ} : {E A B : Type ℓ} → Result E A → (A → Result E B) → Result E B
ok a >>= f = f a
err e >>= f = err e

abbrev pub map_err {ℓ} : {E F A : Type ℓ} → (E → F) → Result E A → Result F A
map_err f (ok a) = ok a
map_err f (err e) = err (f e)

-- Inversion of steps that succeed, and of steps that fail.
module _ {ℓ} {E A B : Type ℓ} where
  pub >>=-eq-ok :
      (r : Result E A) (next : A → Result E B) {b : B}
      → (r >>= next) ≡ ok b
      → (a : A) × (r ≡ ok a) × (next a ≡ ok b)
  >>=-eq-ok (ok a) next done = (a, refl, done)
  >>=-eq-ok (err e) next done = cc

  -- The same in front of a conclusion, for a chain of steps.
  pub from_ok :
      (r : Result E A) (next : A → Result E B) {b : B} {C : Type ℓ}
      → (r >>= next) ≡ ok b
      → ((a : A) → r ≡ ok a → next a ≡ ok b → C)
      → C
  from_ok r next done use_it = let (a, e, rest) = >>=-eq-ok r next done in use_it a e rest

  pub >>=-eq-err :
      (r : Result E A) (next : A → Result E B) {e : E}
      → (r >>= next) ≡ err e
      → (r ≡ err e) ⊎ ((a : A) × (r ≡ ok a) × (next a ≡ err e))
  >>=-eq-err (ok a) next failed = inr (a, refl, failed)
  >>=-eq-err (err x) next failed = inl cc

pub map_err-eq-ok {ℓ} :
    {E F A : Type ℓ} (g : E → F) (m : Result E A) {a : A} → map_err g m ≡ ok a → m ≡ ok a
map_err-eq-ok g (ok a) h = cc
map_err-eq-ok g (err e) h = cc

pub map_err-eq-err {ℓ} :
    {E F A : Type ℓ} (g : E → F) (m : Result E A) {x : F}
    → map_err g m ≡ err x
    → (e : E) × (m ≡ err e) × (x ≡ g e)
map_err-eq-err g (ok a) h = absurd cc
map_err-eq-err g (err e) h = (e, refl, cc)

abbrev pub ok_or {ℓ} : {E A : Type ℓ} → E → Option A → Result E A
ok_or e none = err e
ok_or e (some a) = ok a

pub ok_or-eq-ok {ℓ} : {E A : Type ℓ} (e : E) (o : Option A) {a : A} → ok_or e o ≡ ok a → o ≡ some a
ok_or-eq-ok e none h = cc
ok_or-eq-ok e (some a) h = cc

pub record LimitsConfig : Type 0 where
  pub per_peer_period : ℕ
  pub per_peer_burst : ℕ
  pub global_period : ℕ
  pub global_burst : ℕ
  pub idle_timeout : ℕ
  pub burst_chunk_cap : ℕ
  pub inbound_channel_depth : ℕ
  pub outbound_channel_depth : ℕ

abbrev pub default_limits : LimitsConfig
default_limits = record {
  per_peer_period = 4 * 1000;
  per_peer_burst = 2;
  global_period = 1 * 1000;
  global_burst = 5;
  idle_timeout = 6 * 3600 * 1000;
  burst_chunk_cap = 50;
  inbound_channel_depth = 32;
  outbound_channel_depth = 64;
}

pub record ChunkingConfig : Type 0 where
  pub dm_max_chars : ℕ
  pub number_chunks : Bool
  pub flush_silence : ℕ

abbrev pub default_chunking : ChunkingConfig
default_chunking = record { dm_max_chars = 120; number_chunks = true; flush_silence = 600 }

pub record PeerEntry : Type 0 where
  pub pubkey : Text
  pub nickname : Option Text
  pub idle_timeout : Option ℕ
  pub dm_max_chars : Option ℕ

pub record WhitelistFile : Type 0 where
  pub default_idle_timeout : Option ℕ
  pub default_dm_max_chars : Option ℕ
  pub peers : List PeerEntry

pub record ValidatedPeer : Type 0 where
  pub pubkey : Text
  pub nickname : Option Text
  pub idle_timeout : Option ℕ
  pub dm_max_chars : Option ℕ

pub record Whitelist : Type 0 where
  pub entries : List ValidatedPeer

-- `Option::or`
abbrev pub or_else {ℓ} : {A : Type ℓ} → Option A → Option A → Option A
or_else (some a) o = some a
or_else none o = o

unfoldable pub validate_pubkey : Text → Result Text Text
validate_pubkey raw =
    let trimmed = trim raw in
    if not (len trimmed == 64)
    then err (chars "expected 64 hex chars, got " ++ decimal (len trimmed))
    else if not (all is_ascii_hexdigit trimmed)
    then err (chars "non-hex characters")
    else ok (to_ascii_lowercase trimmed)

-- Membership in a set of texts (`HashSet`), kept as a list.
unfoldable pub has : Text → List Text → Bool
has k = any (λ j. eq_text j k)

abbrev pub validated : WhitelistFile → PeerEntry → Text → ValidatedPeer
validated file peer canon = record {
  pubkey = canon;
  nickname = peer.nickname;
  idle_timeout = or_else peer.idle_timeout file.default_idle_timeout;
  dm_max_chars = or_else peer.dm_max_chars file.default_dm_max_chars;
}

-- The loop of `Whitelist::load` from entry `index` on, with the keys seen so far.
unfoldable pub load_peers :
    Text → WhitelistFile → ℕ → List Text → List PeerEntry → Result ConfigError (List ValidatedPeer)
load_peers path file index seen [] = ok []
load_peers path file index seen (peer ∷ peers) = do
  canon ← map_err (invalid_pubkey path index) (validate_pubkey peer.pubkey)
  let rest = load_peers path file (index + 1) (canon ∷ seen) peers
  if has canon seen
      then err (duplicate_pubkey path canon)
      else (rest >>= λ entries. ok (validated file peer canon ∷ entries))

module _ (read_to_string : Text → Option Text) (from_str : Text → Option WhitelistFile) where
  -- `Whitelist::load`
  unfoldable pub load : Text → Result ConfigError Whitelist
  load path = do
    raw ← ok_or (read path) (read_to_string path)
    file ← ok_or (parse path) (from_str raw)
    entries ← load_peers path file 0 [] file.peers
    ok (record { entries = entries })

-- `Whitelist::get`, `Whitelist::contains`
unfoldable pub find_peer : Text → List ValidatedPeer → Option ValidatedPeer
find_peer pubkey [] = none
find_peer pubkey (e ∷ es) = if eq_text e.pubkey pubkey then some e else find_peer pubkey es

abbrev pub get : Whitelist → Text → Option ValidatedPeer
get w pubkey = find_peer pubkey w.entries

pub contains : Whitelist → Text → Bool
contains w pubkey = any (λ e. eq_text e.pubkey pubkey) w.entries

abbrev pub keys : Whitelist → List Text
keys w = map (λ e. e.pubkey) w.entries

-- `ValidatedPeer::eq`
abbrev pub eq_option {ℓ} : {A : Type ℓ} → (A → A → Bool) → Option A → Option A → Bool
eq_option eq none none = true
eq_option eq (some a) (some b) = eq a b
eq_option eq _ _ = false

unfoldable pub eq_peer : ValidatedPeer → ValidatedPeer → Bool
eq_peer a b =
    eq_text a.pubkey b.pubkey
    && eq_option eq_text a.nickname b.nickname
    && eq_option ◌==◌ a.idle_timeout b.idle_timeout
    && eq_option ◌==◌ a.dm_max_chars b.dm_max_chars

pub record WhitelistDiff : Type 0 where
  pub added : List Text
  pub removed : List Text
  pub changed : List Text

-- The keys of a set built by `collect`, each once, and `HashSet::difference`. The order in which a
-- `HashSet` yields them is open: statements speak of membership.
unfoldable pub collect_set : List Text → List Text
collect_set [] = []
collect_set (k ∷ ks) = let rest = collect_set ks in if has k rest then rest else k ∷ rest

unfoldable pub difference : List Text → List Text → List Text
difference xs ys = retain (λ k. not (has k ys)) xs

-- The loop over the new entries, with what is pushed.
pub changed_keys : Whitelist → List ValidatedPeer → List Text
changed_keys old [] = []
changed_keys old (new_entry ∷ es) =
    let rest = changed_keys old es in
    elim (get old new_entry.pubkey) [
      | some old_entry ↦ if eq_peer old_entry new_entry then rest else new_entry.pubkey ∷ rest
      | none ↦ rest
    ]

unfoldable pub diff_whitelist : Whitelist → Whitelist → WhitelistDiff
diff_whitelist old new =
    let old_keys = collect_set (keys old) in
    let new_keys = collect_set (keys new) in
    record {
      added = difference new_keys old_keys;
      removed = difference old_keys new_keys;
      changed = changed_keys old new.entries;
    }

-- `load_token_file`. `metadata` gives the file's mode; `& 0o777` and `& 0o077` are remainders.
module _ (metadata : Text → Option ℕ) (read_to_string : Text → Option Text) where
  pub load_token_file : Text → Result ConfigError Text
  load_token_file path = do
    meta ← ok_or (read path) (metadata path)
    let mode : ℕ = meta % 2 ^ 9
    if not (mode % 2 ^ 6 == 0)
        then err (insecure_permissions path mode)
        else (ok_or (read path) (read_to_string path) >>= λ raw. ok (trim raw))
