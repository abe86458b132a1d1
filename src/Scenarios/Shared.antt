-- ===== src/Scenarios/Shared.antt =====
-- A base64 that is easy to see through, and the links of one client.
use trust_panel.Prelude.{
  ℕ, zero, suc, ◌≡◌, ◌≢◌, refl, ap, ◌+◌, ◌==◌, true, false, none, some, List, [], ◌∷◌, ◌++◌, All,
  if◌then◌else◌, Text, codes, is_empty, trim_space, drop_spaces, arith,
}
use trust_panel.Prelude.Result.{ok, err}
use trust_panel.Model.Node.{User, Node, entry_role}
use trust_panel.Client.Varint.{put_varint, get_varint, get-put_varint}
use trust_panel.Client.DeepLink.{
  Base64, Links, out_of_fuel, build_links, build_payload, parse_deep_link, entry_addresses,
  landing_hostname, dns_array, landing_loop, address_loop, default_qr_path,
}
use trust_panel.Client.Wire.{IsCarried}
use trust_panel.Client.Extract.{is_url64, IsHostByte}
use trust_panel.Client.Sharing.{IsLawful64, credentials, parse-build_links}
use trust_panel.Client.Termination.{parse_deep_link-ends}
use trust_panel.Scenarios.{sample, alice, node_of}

-- A byte is as many letters A, and a B.
tally : ℕ → Text → Text
tally zero t = b'B' ∷ t
tally (suc n) t = b'A' ∷ tally n t

tallied : Text → Text
unfolding tally
tallied [] = []
tallied (c ∷ s) = tally c (tallied s)

counted : ℕ → Text → Text
counted k [] = []
counted k (c ∷ s) =
    let more = counted (suc k) s in let next = counted 0 s in if c == b'A' then more else k ∷ next

counted-tally : (k n : ℕ) (t : Text) → counted k (tally n t) ≡ (k + n) ∷ counted 0 t
unfolding counted tally
counted-tally k zero t = ground arith
counted-tally k (suc n) t = ground (arith, counted-tally (suc k) n t)

counted-tallied : (s : Text) → counted 0 (tallied s) ≡ s
unfolding tallied counted
counted-tallied [] = refl
counted-tallied (c ∷ s) = ground (arith, counted-tally 0 c (tallied s), counted-tallied s)

tally-url64 :
    (n : ℕ) (t : Text) → All (λ c. is_url64 c ≡ true) t → All (λ c. is_url64 c ≡ true) (tally n t)
unfolding tally
tally-url64 zero t a = (refl, a)
tally-url64 (suc n) t a = (refl, tally-url64 n t a)

tallied-url64 : (s : Text) → All (λ c. is_url64 c ≡ true) (tallied s)
unfolding tallied
tallied-url64 [] = tt
tallied-url64 (c ∷ s) = tally-url64 c (tallied s) (tallied-url64 s)

tally-is_empty : (n : ℕ) (t : Text) → is_empty (tally n t) ≡ false
unfolding tally
tally-is_empty zero t = refl
tally-is_empty (suc n) t = refl

abbrev base64 : Base64
base64 = record {
  encode_raw_url = tallied;
  decode_raw_url = λ s. some (counted 0 s);
  decode_url = λ s. none;
  decode_raw_std = λ s. none;
  decode_std = λ s. none;
}

base64-IsLawful64 : IsLawful64 base64
unfolding tallied
base64-IsLawful64 = record {
  decoded = λ s. ap some (counted-tallied s);
  alphabet = tallied-url64;
  not_empty = λ c s. tally-is_empty c (tallied s);
}

abbrev client : User
client = record alice { secret = codes "pw" }

abbrev entry : Node
entry = record (node_of (codes "e") entry_role none false) {
  public_ips = codes "192.0.2.1" ∷ (codes " " ∷ []);
}

abbrev payload : Text
payload =
    build_payload base64 client (codes "a.b") (entry_addresses entry (codes "a.b") (codes "443"))
      (codes "tls://1.1.1.1" ∷ [])

abbrev resolvers : List Text
resolvers = codes "tls://1.1.1.1" ∷ []

abbrev links : Links
links = record {
  deep_link = codes "tt://?" ++ payload;
  qr_link = codes "https://" ++ (codes "a.b" ++ (default_qr_path ++ (codes "#tt=" ++ payload)));
}

links_built :
    build_links base64 sample client entry (codes "a.b") (codes "443") resolvers ≡ some links
unfolding build_links landing_loop trim_space drop_spaces
links_built = refl

addresses-IsCarried : All IsCarried (entry_addresses entry (codes "a.b") (codes "443"))
unfolding entry_addresses address_loop trim_space drop_spaces
addresses-IsCarried = omega arith

resolvers-IsCarried : IsCarried (dns_array resolvers)
unfolding dns_array put_varint
resolvers-IsCarried = omega arith

host_plain : All IsHostByte (landing_hostname sample entry.id (codes "a.b"))
unfolding landing_loop
host_plain = ((refl, refl), ((refl, refl), ((refl, refl), tt)))

parse-build_links_example :
    (parse_deep_link base64 links.deep_link
      ≡ ok (credentials client (codes "a.b") (entry_addresses entry (codes "a.b") (codes "443"))))
    × (parse_deep_link base64 links.qr_link
        ≡ ok (credentials client (codes "a.b") (entry_addresses entry (codes "a.b") (codes "443"))))
    × (is_empty (trim_space client.secret) ≡ false)
parse-build_links_example =
    parse-build_links base64 base64-IsLawful64 sample client entry (codes "a.b") (codes "443")
      resolvers links links_built refl refl (omega arith) addresses-IsCarried resolvers-IsCarried
      host_plain

get-put_varint_example :
    get_varint (put_varint 494878333 ++ codes "x") ≡ some (494878333, codes "x")
get-put_varint_example = get-put_varint 494878333 (codes "x") (omega arith)

-- The example of RFC 9000.
varint_of_rfc : put_varint 494878333 ≡ 0x9d ∷ (0x7f ∷ (0x3e ∷ (0x7d ∷ [])))
unfolding put_varint
varint_of_rfc = refl

parse_deep_link-ends_example : parse_deep_link base64 (codes "tt://?AB") ≢ err out_of_fuel
parse_deep_link-ends_example = parse_deep_link-ends base64 (codes "tt://?AB")
