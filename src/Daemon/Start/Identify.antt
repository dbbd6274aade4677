-- ===== src/Daemon/Start/Identify.antt =====
-- Which identity the daemon runs as.
use loraterm.Common.{
  ◌≡◌, ◌↔◌, ◌⊎◌, refl, sym, ap, ◌∙◌, inl, inr, true, List, [], ◌∷◌, Option, none, some, any,
  Bool-cases, if◌then◌else◌,
}
use loraterm.Text.{Text, eq_text}
use loraterm.Text.Equality.{eq_text_iff}
use loraterm.Config.{ok, err, >>=-eq-ok, map_err, map_err-eq-ok}
use loraterm.Config.File.{Config}
use loraterm.Client.Http.{Identity, CompanionClient, list_identities}
use loraterm.Daemon.Start.{World, from_api, not_visible, choose_identity, resolve_identity}

-- One of the identities has the id.
abbrev pub IsListed : Text → List Identity → Type 0
IsListed id [] = ⊥
IsListed id (i ∷ is) = (i.id ≡ id) ⊎ IsListed id is

any-IsListed :
    (id : Text) (is : List Identity) → any (λ i. eq_text i.id id) is ≡ true → IsListed id is
any-IsListed id [] h = absurd (cc h)
any-IsListed id (i ∷ is) h = elim (Bool-cases (eq_text i.id id)) [
  | inl same ↦ inl ((eq_text_iff i.id id).0 same)
  | inr other ↦ inr (any-IsListed id is (rw other at h))
]

IsListed-any :
    (id : Text) (is : List Identity) → IsListed id is → any (λ i. eq_text i.id id) is ≡ true
IsListed-any id [] x = elim x [ ]
IsListed-any id (i ∷ is) (inl same) = rw ((eq_text_iff i.id id).1 same) refl
IsListed-any id (i ∷ is) (inr later) = elim (Bool-cases (eq_text i.id id)) [
  | inl same ↦ rw same refl
  | inr other ↦ rw other (IsListed-any id is later)
]

-- The id that is chosen among identities: the one of the configuration, if it is listed, or that of
-- the only one there is.
abbrev pub IsChosen : Option Text → List Identity → Text → Type 0
IsChosen (some explicit) is id = (id ≡ explicit) × IsListed explicit is
IsChosen none is id = (i : Identity) × (is ≡ i ∷ []) × (i.id ≡ id)

choose_identity-IsChosen :
    (explicit : Option Text) (is : List Identity) (id : Text)
    → (choose_identity explicit is ≡ ok id) ↔ IsChosen explicit is id
unfolding choose_identity
choose_identity-IsChosen (some explicit) is id = (forth, back)
  where
    forth :
        (if any (λ i. eq_text i.id explicit) is then ok explicit else err (not_visible explicit))
          ≡ ok id
        → IsChosen (some explicit) is id
    forth e = elim (Bool-cases (any (λ i. eq_text i.id explicit) is)) [
      | inl seen ↦ (cc (rw seen at e), any-IsListed explicit is seen)
      | inr unseen ↦ absurd (cc (rw unseen at e))
    ]

    back :
        IsChosen (some explicit) is id
        → (if any (λ i. eq_text i.id explicit) is then ok explicit else err (not_visible explicit))
          ≡ ok id
    back (same, listed) = rw (IsListed-any explicit is listed) (ap ok (sym same))
choose_identity-IsChosen none [] id = ((λ e. absurd (cc e)), (λ (i, e, f). absurd (cc e)))
choose_identity-IsChosen none (i ∷ []) id = (
  (λ e. (i, refl, cc e)),
  (λ (j, e, f). let same : i ≡ j = cc e in ap ok (ap (λ k. k.id) same ∙ f)),
)
choose_identity-IsChosen none (i ∷ j ∷ is) id = ((λ e. absurd (cc e)), (λ (k, e, f). absurd (cc e)))

-- The daemon runs as an identity exactly if the service lists identities among which it is chosen:
-- the one that is configured has to be listed, and with none configured exactly one has to be.
pub resolve_identity-IsChosen :
    (w : World) (client : CompanionClient) (config : Config) (id : Text)
    → (resolve_identity w client config ≡ ok id) ↔ (
        (is : List Identity) × (list_identities w.send w.parse_identities client ≡ ok is)
        × IsChosen config.identity.id is id)
unfolding resolve_identity
resolve_identity-IsChosen w client config id = (forth, back)
  where
    forth :
        resolve_identity w client config ≡ ok id
        → (is : List Identity) × (list_identities w.send w.parse_identities client ≡ ok is)
          × IsChosen config.identity.id is id
    forth e =
        let (is, listed, chosen) =
          >>=-eq-ok (map_err from_api (list_identities w.send w.parse_identities client)) _ e in
        (
          is,
          map_err-eq-ok from_api (list_identities w.send w.parse_identities client) listed,
          (choose_identity-IsChosen config.identity.id is id).0 chosen,
        )

    back :
        (is : List Identity) × (list_identities w.send w.parse_identities client ≡ ok is)
          × IsChosen config.identity.id is id
        → resolve_identity w client config ≡ ok id
    back (is, listed, chosen) =
        rw listed ((choose_identity-IsChosen config.identity.id is id).1 chosen)
