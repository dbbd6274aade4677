-- ===== src/Client/Http/Requests.antt =====
-- When the calls of the client succeed.
use loraterm.Client.{ApiError, invalid_token}
use loraterm.Common.{
  sym, ℕ, ◌≡◌, ◌↔◌, refl, Bool, true, false, inl, inr, [], ◌∷◌, ◌++◌, Option, some, all, Bool-cases,
  Option-cases, arith, ◌&&◌, leb,
}
use loraterm.Text.{Text, chars, trim_end_matches, ends_with, is_ascii_graphic, push_front_unless}
use loraterm.Config.{Result, ok, from_ok, map_err, map_err-eq-ok}
use loraterm.Client.{new}
use loraterm.Client.Token.{new-IsToken}
use loraterm.Client.Http.{
  CompanionClient, Request, Response, is_success, is_slash, connect, dm_request, send_dm,
}

-- Visible ASCII, with the blank: what a header value may hold.
abbrev pub is_visible : ℕ → Bool
is_visible c = leb 0x20 c && leb c 0x7E

graphic-visible : (s : Text) → all is_ascii_graphic s ≡ true → all is_visible s ≡ true
unfolding is_ascii_graphic
graphic-visible [] h = refl
graphic-visible (c ∷ s) h = ground (arith, graphic-visible s)

trim_end-slash : (s : Text) → ends_with b'/' (trim_end_matches is_slash s) ≡ false
unfolding trim_end_matches is_slash ends_with
trim_end-slash [] = refl
trim_end-slash (c ∷ s) = last_slash c (trim_end_matches is_slash s) (trim_end-slash s)
  where
    last_slash :
        (c : ℕ) (t : Text)
        → ends_with b'/' t ≡ false
        → ends_with b'/' (push_front_unless (is_slash c) c t) ≡ false
    last_slash c [] h = ground arith
    last_slash c (d ∷ t) h = h

-- A token that `Token::new` accepts is a header: if visible ASCII makes a header value and the HTTP
-- client can be built, the client is made, with the token as bearer and a base address that does
-- not end in a slash.
pub connect-new :
    (from_str : Text → Result Text Text) (base_url raw : Text) {t : Text}
    → ((s : Text) → all is_visible s ≡ true → from_str s ≡ ok s)
    → new raw ≡ ok t
    → (client : CompanionClient) × (connect from_str true base_url t ≡ ok client)
      × (client.authorization ≡ chars "Bearer " ++ t)
      × (client.base_url ≡ trim_end_matches is_slash base_url)
      × (ends_with b'/' client.base_url ≡ false)
unfolding connect
connect-new from_str base_url raw {t} law accepted =
    let (same, token) = (new-IsToken raw t).0 accepted in
    let graphic : all is_ascii_graphic t ≡ true = rw same token.graphic in
    (
      record {
        base_url = trim_end_matches is_slash base_url;
        authorization = chars "Bearer " ++ t;
      },
      rw (law (chars "Bearer " ++ t) (graphic-visible t graphic)),
      refl,
      refl,
      trim_end-slash base_url,
    )

-- What `is_success` says of the status of an answer.
abbrev pub Answers : (Request → Option Response) → Request → Bool → Response → Type 0
Answers send request success resp = (send request ≡ some resp) × (is_success resp.status ≡ success)

module _ (send : Request → Option Response) (client : CompanionClient) where
  -- A message is sent exactly if the request with its three fields is answered with a success.
  pub send_dm-Answers :
      (identity_id peer_pubkey_hex text : Text)
      → (send_dm send client identity_id peer_pubkey_hex text ≡ ok tt) ↔ (
          (resp : Response) × Answers send
            (dm_request client identity_id peer_pubkey_hex text)
            true
            resp)
  unfolding send_dm
  send_dm-Answers identity_id peer_pubkey_hex text = (forth, back)
    where
      request : Request
      request = dm_request client identity_id peer_pubkey_hex text

      forth :
          send_dm send client identity_id peer_pubkey_hex text ≡ ok tt
          → (resp : Response) × Answers send request true resp
      forth e = elim (Option-cases (send request)) [
        | inl lost ↦ absurd (cc (rw lost at e))
        | inr (resp, answered) ↦ elim (Bool-cases (is_success resp.status)) [
          | inl success ↦ (resp, (answered, success))
          | inr failed ↦ absurd (cc (rw (answered, failed) at e))
        ]
      ]

      back :
          (resp : Response) × Answers send request true resp
          → send_dm send client identity_id peer_pubkey_hex text ≡ ok tt
      back (resp, (answered, success)) = rw (answered, success)

-- The client that `CompanionClient::new` makes.
pub connect-eq-ok :
    (from_str : Text → Result Text Text) (build : Bool) (base_url token : Text)
    {client : CompanionClient}
    → connect from_str build base_url token ≡ ok client
    → (authorization : Text) × (from_str (chars "Bearer " ++ token) ≡ ok authorization)
      × (client
          ≡ record { base_url = trim_end_matches is_slash base_url; authorization = authorization })
unfolding connect
connect-eq-ok from_str build base_url token e =
    from_ok (map_err invalid_token (from_str (chars "Bearer " ++ token))) _ e λ authorization c e1.
      (
        authorization,
        map_err-eq-ok invalid_token (from_str (chars "Bearer " ++ token)) c,
        elim (Bool-cases build) [
          | inl built ↦ sym (ok_inj (rw built at e1))
          | inr failed ↦ absurd (cc (rw failed at e1))
        ],
      )
  where
    ok_inj : {a b : CompanionClient} → Path (Result ApiError CompanionClient) (ok a) (ok b) → a ≡ b
    ok_inj e = cc e
