-- ===== src/Config/Load.antt =====
-- What a loaded whitelist is, why a load is refused, and lookups in it.
use loraterm.Common.{
  map, Option-cases, All-mono, All-mono₂, subst, ℕ, suc, ◌+◌, ◌≡◌, ◌⊎◌, refl, sym, ap, ◌∙◌, inl,
  inr, true, false, List, [], ◌∷◌, ◌++◌, Option, none, some, arith, Bool-cases, length, any, All,
}
use loraterm.Text.{Text, eq_text}
use loraterm.Text.Equality.{eq_text_iff, eq_text_refl}
use loraterm.Config.{
  ok_or-eq-ok, parse, trim, read, ok_or, to_ascii_lowercase, ConfigError, invalid_pubkey,
  duplicate_pubkey, ok, err, >>=-eq-ok, >>=-eq-err, map_err-eq-ok, map_err-eq-err, map_err,
  WhitelistFile, PeerEntry, ValidatedPeer, Whitelist, validated, validate_pubkey, has, load_peers,
  load, find_peer, get, contains, keys,
}
use loraterm.Config.Keys.{IsCanonical, validate_pubkey-IsCanonical, has-nil, has-cons}

-- Keys that differ from one another, and from those of `seen`.
abbrev pub Distinct : List Text → List ValidatedPeer → Type 0
Distinct seen [] = Unit
Distinct seen (e ∷ es) = (has e.pubkey seen ≡ false) × Distinct (e.pubkey ∷ seen) es

-- Each entry is that of the file, in order: under the validated key, with the file's defaults where
-- it has no values of its own.
abbrev pub FromFile : WhitelistFile → List PeerEntry → List ValidatedPeer → Type 0
FromFile file [] [] = Unit
FromFile file (p ∷ ps) (e ∷ es) =
    (validate_pubkey p.pubkey ≡ ok e.pubkey) × (e ≡ validated file p e.pubkey) × FromFile file ps es
FromFile file _ _ = ⊥

pub record IsLoaded (file : WhitelistFile) (entries : List ValidatedPeer) : Type 0 where
  pub canonical : All (λ e. IsCanonical e.pubkey) entries
  pub distinct : Distinct [] entries
  pub from_file : FromFile file file.peers entries

-- One round of the loop that succeeds.
load_peers-cons :
    (path : Text) (file : WhitelistFile) (index : ℕ) (seen : List Text) (p : PeerEntry)
    (ps : List PeerEntry) {es : List ValidatedPeer}
    → load_peers path file index seen (p ∷ ps) ≡ ok es
    → (key : Text) × (rest : List ValidatedPeer) × (validate_pubkey p.pubkey ≡ ok key)
      × (has key seen ≡ false)
      × (load_peers path file (index + 1) (key ∷ seen) ps ≡ ok rest)
      × (es ≡ validated file p key ∷ rest)
unfolding load_peers
load_peers-cons path file index seen p ps {es} e =
    let (key, v, e') =
      >>=-eq-ok (map_err (invalid_pubkey path index) (validate_pubkey p.pubkey)) _ e in
    let valid = map_err-eq-ok (invalid_pubkey path index) (validate_pubkey p.pubkey) v in
    elim (Bool-cases (has key seen)) [
      | inl dup ↦ absurd (cc (rw dup at e'))
      | inr fresh ↦
          let (rest, loaded, e'') =
            >>=-eq-ok (load_peers path file (index + 1) (key ∷ seen) ps) _ (rw fresh at e') in
          (key, rest, valid, fresh, loaded, cc)
    ]

load_peers-parts :
    (path : Text) (file : WhitelistFile) (index : ℕ) (seen : List Text) (ps : List PeerEntry)
    {es : List ValidatedPeer}
    → load_peers path file index seen ps ≡ ok es
    → All (λ e. IsCanonical e.pubkey) es × Distinct seen es × FromFile file ps es
load_peers-parts path file index seen [] {es} e =
    let none_left : [] ≡ es = unfold load_peers in cc in rw (← none_left) (tt, tt, tt)
load_peers-parts path file index seen (p ∷ ps) e =
    let (key, rest, valid, fresh, loaded, shape) = load_peers-cons path file index seen p ps e in
    let (canonical, distinct, from_file) =
      load_peers-parts path file (index + 1) (key ∷ seen) ps loaded in
    rw shape (
      ((validate_pubkey-IsCanonical p.pubkey valid).0, canonical),
      (fresh, distinct),
      (valid, refl, from_file),
    )

module _ (read_to_string : Text → Option Text) (from_str : Text → Option WhitelistFile) where
  -- A whitelist that is loaded comes from the file that was read and parsed: its keys are canonical
  -- and differ from one another, and its entries are those of the file, in order, under their
  -- validated keys and with the file's defaults filled in.
  pub load-IsLoaded :
      (path : Text) {w : Whitelist}
      → load read_to_string from_str path ≡ ok w
      → (raw : Text) × (file : WhitelistFile) × (read_to_string path ≡ some raw)
        × (from_str raw ≡ some file)
        × IsLoaded file w.entries
  unfolding load
  load-IsLoaded path {w} e =
      let (raw, er, e1) = >>=-eq-ok (ok_or (read path) (read_to_string path)) _ e in
      let (file, ef, e2) = >>=-eq-ok (ok_or (parse path) (from_str raw)) _ e1 in
      let (es, loaded, e3) = >>=-eq-ok (load_peers path file 0 [] file.peers) _ e2 in
      let (canonical, distinct, from_file) = load_peers-parts path file 0 [] file.peers loaded in
      let same : es ≡ w.entries = cc in
      (
        raw,
        file,
        ok_or-eq-ok (read path) (read_to_string path) er,
        ok_or-eq-ok (parse path) (from_str raw) ef,
        rw (← same) (record { canonical = canonical; distinct = distinct; from_file = from_file }),
      )

-- The keys seen behind some entries that were accepted.
abbrev pub seen_after : List Text → List PeerEntry → List Text
seen_after seen [] = seen
seen_after seen (p ∷ ps) = seen_after (to_ascii_lowercase (trim p.pubkey) ∷ seen) ps

-- The entries are valid and under new keys.
abbrev pub Accepts : List Text → List PeerEntry → Type 0
Accepts seen [] = Unit
Accepts seen (p ∷ ps) =
    (validate_pubkey p.pubkey ≡ ok (to_ascii_lowercase (trim p.pubkey)))
    × (has (to_ascii_lowercase (trim p.pubkey)) seen ≡ false)
    × Accepts (to_ascii_lowercase (trim p.pubkey) ∷ seen) ps

-- Why an entry is refused that stands at `index` behind the keys `seen`.
abbrev pub Refuses : Text → ℕ → List Text → PeerEntry → ConfigError → Type 0
Refuses path index seen p e =
    ((reason : Text) × (validate_pubkey p.pubkey ≡ err reason)
      × (e ≡ invalid_pubkey path index reason))
    ⊎ ((key : Text) × (validate_pubkey p.pubkey ≡ ok key)
        × (has key seen ≡ true)
        × (e ≡ duplicate_pubkey path key))

pub record RefusedAt (path : Text) (index : ℕ) (seen : List Text) (ps : List PeerEntry)
    (e : ConfigError) : Type 0 where
  pub before : List PeerEntry
  pub entry : PeerEntry
  pub behind : List PeerEntry
  pub splits : ps ≡ before ++ entry ∷ behind
  pub accepts : Accepts seen before
  pub refuses : Refuses path (index + length before) (seen_after seen before) entry e

RefusedAt-here :
    (path : Text) (index : ℕ) (seen : List Text) (p : PeerEntry) (ps : List PeerEntry)
    {e : ConfigError}
    → Refuses path index seen p e
    → RefusedAt path index seen (p ∷ ps) e
RefusedAt-here path index seen p ps {e} r = record {
  before = [];
  entry = p;
  behind = ps;
  splits = refl;
  accepts = tt;
  refuses = let same : index + 0 ≡ index = omega arith in rw same r;
}

abbrev canon : PeerEntry → Text
canon p = to_ascii_lowercase (trim p.pubkey)

RefusedAt-later :
    (path : Text) (index : ℕ) (seen : List Text) (p : PeerEntry) (ps : List PeerEntry)
    {e : ConfigError}
    → validate_pubkey p.pubkey ≡ ok (canon p)
    → has (canon p) seen ≡ false
    → RefusedAt path (index + 1) (canon p ∷ seen) ps e
    → RefusedAt path index seen (p ∷ ps) e
RefusedAt-later path index seen p ps {e} valid fresh r =
    let place : index + 1 + length r.before ≡ index + suc (length r.before) = omega arith in
    record {
      before = p ∷ r.before;
      entry = r.entry;
      behind = r.behind;
      splits = ap (◌∷◌ p) r.splits;
      accepts = (valid, fresh, r.accepts);
      refuses =
          subst (λ i. Refuses path i (seen_after (canon p ∷ seen) r.before) r.entry e) place
            r.refuses;
    }

-- A load whose entries are refused names the first entry that is not accepted, by its place in the
-- file and the reason: its key is invalid, or is that of an entry before it. The entries before it
-- are valid, under keys that differ.
pub load_peers-RefusedAt :
    (path : Text) (file : WhitelistFile) (index : ℕ) (seen : List Text) (ps : List PeerEntry)
    {e : ConfigError}
    → load_peers path file index seen ps ≡ err e
    → RefusedAt path index seen ps e
unfolding load_peers
load_peers-RefusedAt path file index seen [] e = absurd cc
load_peers-RefusedAt path file index seen (p ∷ ps) {e = x} e =
    let checked = validate_pubkey p.pubkey in
    elim (>>=-eq-err (map_err (invalid_pubkey path index) checked) _ e) [
      | inl invalid ↦
          let (reason, bad, shape) = map_err-eq-err (invalid_pubkey path index) checked invalid in
          RefusedAt-here path index seen p ps (inl (reason, bad, shape))
      | inr (key, v, e') ↦
          let valid = map_err-eq-ok (invalid_pubkey path index) checked v in
          let lower : key ≡ canon p = (validate_pubkey-IsCanonical p.pubkey valid).1 in
          elim (Bool-cases (has key seen)) [
            | inl dup ↦
                RefusedAt-here path index seen p ps (inr (key, valid, dup, cc (rw dup at e')))
            | inr fresh ↦
                elim (>>=-eq-err (load_peers path file (index + 1) (key ∷ seen) ps) _
                  (rw fresh at e')) [
                    | inl later ↦
                        RefusedAt-later path index seen p ps (valid ∙ ap ok lower)
                          (subst (λ k. has k seen ≡ false) lower fresh)
                          (subst (λ k. RefusedAt path (index + 1) (k ∷ seen) ps x) lower
                            (load_peers-RefusedAt path file (index + 1) (key ∷ seen) ps later))
                    | inr (rest, _, done) ↦ absurd cc
                  ]
          ]
    ]

-- The keys of distinct entries are not among those seen before.
Distinct-fresh :
    (seen : List Text) (es : List ValidatedPeer)
    → Distinct seen es
    → All (λ e. has e.pubkey seen ≡ false) es
Distinct-fresh seen [] d = tt
Distinct-fresh seen (e ∷ es) d = (
  d.0,
  All-mono (λ x h. has-less e.pubkey x.pubkey h) es (Distinct-fresh (e.pubkey ∷ seen) es d.1),
)
  where
    has-less : (j k : Text) → has k (j ∷ seen) ≡ false → has k seen ≡ false
    has-less j k h = ground (arith, has-cons k j seen)

find_peer-behind :
    (x : ValidatedPeer) (seen : List Text) (es : List ValidatedPeer) (e : ValidatedPeer)
    → has e.pubkey (x.pubkey ∷ seen) ≡ false
    → find_peer e.pubkey es ≡ some e
    → find_peer e.pubkey (x ∷ es) ≡ some e
unfolding find_peer
find_peer-behind x seen es e h found = ground (arith, has-cons e.pubkey x.pubkey seen)

-- In a whitelist of distinct keys each entry is what a lookup of its key finds.
pub find_peer-Distinct :
    (seen : List Text) (es : List ValidatedPeer)
    → Distinct seen es
    → All (λ e. find_peer e.pubkey es ≡ some e) es
find_peer-Distinct seen [] d = tt
find_peer-Distinct seen (x ∷ es) d = (
  unfold find_peer in rw (eq_text_refl x.pubkey),
  All-mono₂ es (λ e. find_peer-behind x seen es e) (Distinct-fresh (x.pubkey ∷ seen) es d.1)
      (find_peer-Distinct (x.pubkey ∷ seen) es d.1),
)

-- What a lookup finds bears the key that was looked up.
pub find_peer-key :
    (k : Text) (es : List ValidatedPeer) {e : ValidatedPeer}
    → find_peer k es ≡ some e
    → e.pubkey ≡ k
unfolding find_peer
find_peer-key k [] h = absurd cc
find_peer-key k (x ∷ es) {e} h = ground (arith, eq_text_iff x.pubkey k, find_peer-key k es {e = e})

contains-has :
    (k : Text) (es : List ValidatedPeer)
    → any (λ e. eq_text e.pubkey k) es ≡ has k (map (λ e. e.pubkey) es)
contains-has k [] = sym (has-nil k)
contains-has k (x ∷ es) = rw (has-cons k x.pubkey (map (λ e. e.pubkey) es), contains-has k es)

pub IsSome-find_peer :
    (k : Text) (es : List ValidatedPeer)
    → has k (map (λ e. e.pubkey) es) ≡ elim (find_peer k es) [ some e ↦ true | none ↦ false ]
unfolding find_peer
IsSome-find_peer k [] = has-nil k
IsSome-find_peer k (x ∷ es) =
    rw (has-cons k x.pubkey (map (λ e. e.pubkey) es)) (ground (arith, IsSome-find_peer k es))

-- A lookup finds an entry exactly when the whitelist has the key, which is what `contains` tests;
-- and the entry it finds bears that key.
pub get-contains :
    (w : Whitelist) (k : Text)
    → (contains w k ≡ has k (keys w))
      × (((contains w k ≡ false) × (get w k ≡ none))
          ⊎ ((contains w k ≡ true) × (e : ValidatedPeer) × (get w k ≡ some e) × (e.pubkey ≡ k)))
unfolding contains
get-contains w k =
    let tested = contains-has k w.entries in
    let found = IsSome-find_peer k w.entries in
    (
      tested,
      elim (Option-cases (find_peer k w.entries)) [
        | inl missing ↦ inl (tested ∙ found ∙ rw missing, missing)
        | inr (e, hit) ↦ inr (tested ∙ found ∙ rw hit, e, hit, find_peer-key k w.entries hit)
      ],
    )
