-- ===== src/Config/Token.antt =====
-- The token file and its permissions.
use loraterm.Common.{
  ℕ, ◌%◌, ◌^◌, ◌≡◌, ◌↔◌, sym, ap, inl, inr, true, Option, some, arith, ◌==◌, Bool-cases,
  Option-cases,
}
use loraterm.Text.{Text, trim}
use loraterm.Config.{ok, load_token_file}

module _ (metadata : Text → Option ℕ) (read_to_string : Text → Option Text) where
  -- What a token comes from: a file that can be read, whose mode gives no permission to its group
  -- or to others; the token is its text, trimmed.
  pub record IsTokenOf (path token : Text) : Type 0 where
    pub mode : ℕ
    pub raw : Text
    pub found : metadata path ≡ some mode
    pub private_mode : mode % 2 ^ 6 ≡ 0
    pub contents : read_to_string path ≡ some raw
    pub trimmed : token ≡ trim raw

  -- A token is loaded exactly from a file that can be read and whose mode gives no permission to its
  -- group or to others: the token is the text of the file, trimmed. Every other file is refused.
  pub load_token_file-IsTokenOf :
      (path token : Text)
      → (load_token_file metadata read_to_string path ≡ ok token) ↔ IsTokenOf path token
  unfolding load_token_file
  load_token_file-IsTokenOf path token = (forth, back)
    where
      forth : load_token_file metadata read_to_string path ≡ ok token → IsTokenOf path token
      forth e = elim (Option-cases (metadata path)) [
        | inl missing ↦ absurd (cc (rw missing at e))
        | inr (mode, found) ↦ elim (Bool-cases (mode % 2 ^ 9 % 2 ^ 6 == 0)) [
          | inr shared ↦ absurd (cc (rw (found, shared) at e))
          | inl own ↦ elim (Option-cases (read_to_string path)) [
            | inl unread ↦ absurd (cc (rw (found, own, unread) at e))
            | inr (raw, contents) ↦ record {
              mode = mode;
              raw = raw;
              found = found;
              private_mode = ground arith;
              contents = contents;
              trimmed = cc (rw (found, own, contents) at e);
            }
          ]
        ]
      ]

      back : IsTokenOf path token → load_token_file metadata read_to_string path ≡ ok token
      back t =
          let own : (t.mode % 2 ^ 9 % 2 ^ 6 == 0) ≡ true = ground (arith, t.private_mode) in
          rw (t.found, own, t.contents) (ap ok (sym t.trimmed))
