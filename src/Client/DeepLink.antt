-- ===== src/Client/DeepLink.antt =====
-- clientcfg.go and deeplink.go: a deep link, written and read.
use trust_panel.Prelude.{
  ℕ, zero, suc, ◌==◌, Bool, true, false, not, ◌||◌, Option, none, some, List, [], ◌∷◌, ◌++◌,
  if◌then◌else◌, length, Text, codes, text_eq, ◌&&◌, is_empty, trim_space,
}
use trust_panel.Prelude.Result.{Result, ok, err, ◌>>=◌}
use trust_panel.Model.Node.{User, Node, Domain, DomainPurpose, endpoint, decoy, other_purpose}
use trust_panel.Model.State.{State}
use trust_panel.Client.Varint.{put_varint, get_varint}

-- tlv, as the bytes that it appends.
unfoldable pub tlv : ℕ → Text → Text
tlv tag val = put_varint tag ++ (put_varint (length val) ++ val)

-- One TLV for each address.
unfoldable pub address_tlvs : List Text → Text
address_tlvs [] = []
address_tlvs (a ∷ rest) = tlv 2 a ++ address_tlvs rest

-- The array of resolvers: each a length and the bytes.
unfoldable pub dns_array : List Text → Text
dns_array [] = []
dns_array (d ∷ ds) = put_varint (length d) ++ (d ++ dns_array ds)

abbrev pub dns_tlv : List Text → Text
dns_tlv [] = []
dns_tlv (d ∷ ds) = tlv 13 (dns_array (d ∷ ds))

-- buildDeepLinkPayload, before it is put in base64.
unfoldable pub link_bytes : User → Text → List Text → List Text → Text
link_bytes user hostname addresses dns =
    tlv 0 (1 ∷ [])
    ++ (tlv 1 hostname
        ++ (tlv 5 user.username ++ (tlv 6 user.secret ++ (address_tlvs addresses ++ dns_tlv dns))))

-- Package encoding/base64: the encoding that is written, and the four decodings that are tried.
pub record Base64 : Type 0 where
  pub encode_raw_url : Text → Text
  pub decode_raw_url : Text → Option Text
  pub decode_url : Text → Option Text
  pub decode_raw_std : Text → Option Text
  pub decode_std : Text → Option Text

-- DeepLink
pub record DeepLink : Type 0 where
  pub hostname : Text
  pub username : Text
  pub password : Text
  pub name : Text
  pub addresses : List Text

pub data LinkError : Type 0 where
  empty_link bad_base64 truncated missing_field out_of_fuel : LinkError

abbrev pub no_link : DeepLink
no_link = record { hostname = []; username = []; password = []; name = []; addresses = [] }

-- The switch on the tag.
unfoldable pub set_field : ℕ → Text → DeepLink → DeepLink
set_field tag val dl =
    if tag == 1
    then record dl { hostname = val }
    else if tag == 2
    then record dl { addresses = dl.addresses ++ val ∷ [] }
    else if tag == 5
    then record dl { username = val }
    else if tag == 6
    then record dl { password = val }
    else if tag == 12
    then record dl { name = val }
    else dl

-- `raw[i : i+n]` and what is left, where there is so much.
unfoldable pub split_at : ℕ → Text → Option (Text × Text)
split_at zero s = some ([], s)
split_at (suc n) [] = none
split_at (suc n) (c ∷ s) = elim (split_at n s) [ none ↦ none | some p ↦ some (c ∷ p.0, p.1) ]

abbrev pub or_truncated {ℓ} : {A : Type ℓ} → Option A → Result LinkError A
or_truncated none = err truncated
or_truncated (some a) = ok a

-- One turn of the loop of ParseDeepLink, on the bytes that are left.
unfoldable pub parse_field : Text → DeepLink → Result LinkError (DeepLink × Text)
parse_field raw dl = or_truncated (get_varint raw) >>= λ tagged.
    or_truncated (get_varint tagged.1) >>= λ sized.
    or_truncated (split_at sized.0 sized.1) >>= λ cut. ok (set_field tagged.0 cut.0 dl, cut.1)

-- The loop; each turn takes a byte at least, so that as many turns as there are bytes are enough.
unfoldable pub parse_loop : ℕ → Text → DeepLink → Result LinkError DeepLink
parse_loop fuel [] dl = ok dl
parse_loop zero (c ∷ raw) dl = err out_of_fuel
parse_loop (suc fuel) (c ∷ raw) dl =
    parse_field (c ∷ raw) dl >>= λ turn. parse_loop fuel turn.1 turn.0

-- ParseDeepLink on the bytes of the payload.
unfoldable pub parse_bytes : Text → Result LinkError DeepLink
parse_bytes raw = parse_loop (length raw) raw no_link >>= λ dl.
    if is_empty dl.hostname || is_empty dl.username || is_empty dl.password
    then err missing_field
    else ok dl

-- strings.CutPrefix
unfoldable pub cut_prefix : Text → Text → Option Text
cut_prefix [] s = some s
cut_prefix (p ∷ ps) [] = none
cut_prefix (p ∷ ps) (c ∷ s) = if c == p then cut_prefix ps s else none

-- strings.Index, as what stands after the first place of a separator that is not empty.
unfoldable pub after_first : Text → Text → Option Text
after_first sep [] = none
after_first sep (c ∷ s) =
    let later = after_first sep s in
    elim (cut_prefix sep (c ∷ s)) [ none ↦ later | some rest ↦ some rest ]

abbrev pub ends_fragment : ℕ → Bool
ends_fragment c = c == b'&' || c == 9 || c == 10 || c == 13 || c == 32

-- strings.IndexAny(s, "&\t\n\r "), as what stands before it.
unfoldable pub until_end : Text → Text
until_end [] = []
until_end (c ∷ s) = let rest = until_end s in if ends_fragment c then [] else c ∷ rest

abbrev pub fragment : Text → Text
fragment s = trim_space (until_end s)

abbrev pub or_else : Option Text → Text → Text
or_else none t = t
or_else (some s) t = s

abbrev pub after_scheme : Text → Text
after_scheme s = or_else (cut_prefix (codes "tt://?") s) (or_else (cut_prefix (codes "tt://") s) s)

abbrev pub in_fragment : Text → List Text → Text
in_fragment s [] = after_scheme s
in_fragment s (sep ∷ seps) =
    let later = in_fragment s seps in
    elim (after_first sep s) [ none ↦ later | some rest ↦ fragment rest ]

abbrev pub separators : List Text
separators = codes "#tt=" ∷ (codes "?tt=" ∷ (codes "&tt=" ∷ []))

-- extractPayload
unfoldable pub extract_payload : Text → Text
extract_payload s = in_fragment (trim_space s) separators

abbrev pub first_of : Option Text → Option Text → Option Text
first_of none o = o
first_of (some t) o = some t

module _ (b : Base64) where
  -- decodeB64: the first decoding that goes well.
  unfoldable pub decode_b64 : Text → Option Text
  decode_b64 s =
      let t = trim_space s in
      first_of (b.decode_raw_url t)
        (first_of (b.decode_url t) (first_of (b.decode_raw_std t) (b.decode_std t)))

  -- buildDeepLinkPayload
  unfoldable pub build_payload : User → Text → List Text → List Text → Text
  build_payload user hostname addresses dns =
      b.encode_raw_url (link_bytes user hostname addresses dns)

  -- ParseDeepLink
  unfoldable pub parse_deep_link : Text → Result LinkError DeepLink
  parse_deep_link s =
      let payload = extract_payload s in
      if is_empty payload
      then err empty_link
      else elim (decode_b64 payload) [ none ↦ err bad_base64 | some raw ↦ parse_bytes raw ]

-- paths.DefaultQRPath
abbrev pub default_qr_path : Text
default_qr_path = codes "/_int/tlv-probe-cf259edd5fab4e2f61b367c6"

abbrev pub is_decoy : DomainPurpose → Bool
is_decoy decoy = true
is_decoy endpoint = false
is_decoy (other_purpose _) = false

-- The loop of landingHostname.
unfoldable pub landing_loop : List Domain → Text → Text → Text
landing_loop [] node_id fallback = fallback
landing_loop (d ∷ ds) node_id fallback =
    let rest = landing_loop ds node_id fallback in
    if text_eq d.node_id node_id && (is_decoy d.purpose && not (is_empty d.hostname))
    then d.hostname
    else rest

-- landingHostname
abbrev pub landing_hostname : State → Text → Text → Text
landing_hostname s = landing_loop s.domains

-- `fmt.Sprintf("%s:%d", host, port)`, with the port as it is printed.
abbrev pub host_port : Text → Text → Text
host_port host port = host ++ (codes ":" ++ port)

-- The loop of entryAddresses.
unfoldable pub address_loop : List Text → Text → List Text
address_loop [] port = []
address_loop (ip ∷ ips) port =
    let rest = address_loop ips port in
    if is_empty (trim_space ip) then rest else host_port (trim_space ip) port ∷ rest

abbrev pub or_hostname : List Text → Text → List Text
or_hostname [] address = address ∷ []
or_hostname (a ∷ rest) address = a ∷ rest

-- entryAddresses
unfoldable pub entry_addresses : Node → Text → Text → List Text
entry_addresses entry hostname port =
    or_hostname (address_loop entry.public_ips port) (host_port hostname port)

-- The two links of a Config.
pub record Links : Type 0 where
  pub deep_link : Text
  pub qr_link : Text

-- The end of Build: no link for a user without a secret.
unfoldable pub build_links : Base64 → State → User → Node → Text → Text → List Text → Option Links
build_links b s user entry hostname port dns =
    let payload = build_payload b user hostname (entry_addresses entry hostname port) dns in
    if is_empty (trim_space user.secret)
    then none
    else some (record {
      deep_link = codes "tt://?" ++ payload;
      qr_link =
          codes "https://"
          ++ (landing_hostname s entry.id hostname
              ++ (default_qr_path ++ (codes "#tt=" ++ payload)));
    })
