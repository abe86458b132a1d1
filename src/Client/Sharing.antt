-- ===== src/Client/Sharing.antt =====
-- clientcfg.go and deeplink.go: what is shared with a client is read back as that client's.
use trust_panel.Prelude.{
  ℕ, ◌≡◌, refl, ◌∙◌, ap, true, false, some, List, [], ◌∷◌, ◌++◌, All, Bool-cases, inl, inr, Text,
  codes, is_empty, drop_spaces, trim_space, arith,
}
use trust_panel.Prelude.Result.{ok}
use trust_panel.Model.Node.{User, Node}
use trust_panel.Model.State.{State}
use trust_panel.Client.DeepLink.{
  Base64, DeepLink, Links, link_bytes, build_payload, build_links, entry_addresses,
  landing_hostname, dns_array, extract_payload, decode_b64, parse_deep_link, parse_bytes, tlv,
}
use trust_panel.Client.Varint.{put_varint}
use trust_panel.Client.Wire.{IsCarried, parse_bytes-link_bytes}
use trust_panel.Client.Extract.{
  is_url64, IsHostByte, qr_of, All-weaken, trim_space-Solid, url64-is_space, extract-scheme,
  extract-qr,
}

-- What the links rely on: what is encoded is decoded again, and is written in the alphabet.
pub record IsLawful64 (b : Base64) : Type 0 where
  pub decoded : (s : Text) → b.decode_raw_url (b.encode_raw_url s) ≡ some s
  pub alphabet : (s : Text) → All (λ c. is_url64 c ≡ true) (b.encode_raw_url s)
  pub not_empty : (c : ℕ) (s : Text) → is_empty (b.encode_raw_url (c ∷ s)) ≡ false

abbrev pub credentials : User → Text → List Text → DeepLink
credentials user hostname addresses = record {
  hostname = hostname;
  username = user.username;
  password = user.secret;
  name = [];
  addresses = addresses;
}

module _ (b : Base64) (law : IsLawful64 b) (user : User) (hostname : Text)
    (addresses dns : List Text) where
  payload_lem : is_empty (build_payload b user hostname addresses dns) ≡ false
  unfolding build_payload link_bytes tlv put_varint
  payload_lem = law.not_empty 0 _

  payload-decoded :
      decode_b64 b (build_payload b user hostname addresses dns)
      ≡ some (link_bytes user hostname addresses dns)
  unfolding decode_b64 build_payload
  payload-decoded =
      let bytes = link_bytes user hostname addresses dns in
      let abc = All-weaken (b.encode_raw_url bytes) url64-is_space (law.alphabet bytes) in
      rw (trim_space-Solid (b.encode_raw_url bytes) abc, law.decoded bytes) refl

  payload-url64 : All (λ c. is_url64 c ≡ true) (build_payload b user hostname addresses dns)
  unfolding build_payload
  payload-url64 = law.alphabet (link_bytes user hostname addresses dns)

  parse-payload :
      (s : Text)
      → extract_payload s ≡ build_payload b user hostname addresses dns
      → parse_deep_link b s ≡ parse_bytes (link_bytes user hostname addresses dns)
  unfolding parse_deep_link
  parse-payload s e = ground (arith, e, payload_lem, payload-decoded)

has_secret : (s : Text) → is_empty (trim_space s) ≡ false → is_empty s ≡ false
unfolding trim_space drop_spaces
has_secret [] h = ground (arith, h)
has_secret (c ∷ s) h = refl

-- The links that are made for a client are read back as its credentials with the entry's addresses,
-- if host and name are there, nothing is too long to carry, and the host of the landing page has no
-- space and no hash; and the client has a secret that is not blank.
pub parse-build_links :
    (b : Base64) (law : IsLawful64 b) (s : State) (user : User) (entry : Node)
    (hostname port : Text) (dns : List Text) (links : Links)
    → build_links b s user entry hostname port dns ≡ some links
    → is_empty hostname ≡ false
    → is_empty user.username ≡ false
    → IsCarried hostname × IsCarried user.username × IsCarried user.secret
    → All IsCarried (entry_addresses entry hostname port)
    → IsCarried (dns_array dns)
    → All IsHostByte (landing_hostname s entry.id hostname)
    → (parse_deep_link b links.deep_link
        ≡ ok (credentials user hostname (entry_addresses entry hostname port)))
      × (parse_deep_link b links.qr_link
          ≡ ok (credentials user hostname (entry_addresses entry hostname port)))
      × (is_empty (trim_space user.secret) ≡ false)
unfolding build_links
parse-build_links b law s user entry hostname port dns links e h u l la ld host =
    let addresses = entry_addresses entry hostname port in
    let p = build_payload b user hostname addresses dns in
    let land = landing_hostname s entry.id hostname in
    elim (Bool-cases (is_empty (trim_space user.secret))) [
      | inl y ↦ ground (arith, e, y)
      | inr y ↦
          let bytes =
            parse_bytes-link_bytes user hostname addresses dns h u (has_secret user.secret y) l la
              ld in
          let deep : links.deep_link ≡ codes "tt://?" ++ p = ground (arith, e, y) in
          let qr : links.qr_link ≡ qr_of land p = ground (arith, e, y) in
          let abc = payload-url64 b law user hostname addresses dns in
          (
            parse-payload b law user hostname addresses dns links.deep_link
                  (ap extract_payload deep ∙ extract-scheme p abc)
                ∙ bytes,
            parse-payload b law user hostname addresses dns links.qr_link
                  (ap extract_payload qr ∙ extract-qr p abc land host)
                ∙ bytes,
            y,
          )
    ]
