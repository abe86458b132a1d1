-- ===== src/Client/Wire.antt =====
-- clientcfg.go and deeplink.go: reading gives back what writing put into the bytes.
use trust_panel.Prelude.{
  ℕ, zero, suc, ◌≡◌, refl, sym, subst, ◌∙◌, ap, ◌<◌, ◌≤◌, false, some, List, [], ◌∷◌, ◌++◌, All,
  length, length-append, Text, is_empty, arith,
}
use mathlib.Core.List.{append_assoc, append-nil}
use trust_panel.Prelude.Result.{ok, ◌>>=◌}
use trust_panel.Model.Node.{User}
use trust_panel.Client.Varint.{put_varint, get-put_varint, varint_limit}
use trust_panel.Client.DeepLink.{
  tlv, address_tlvs, dns_array, dns_tlv, link_bytes, DeepLink, no_link, set_field, split_at,
  parse_field, parse_loop, parse_bytes,
}

split_at-append : (s rest : Text) → split_at (length s) (s ++ rest) ≡ some (s, rest)
unfolding split_at
split_at-append [] rest = refl
split_at-append (c ∷ s) rest = ground (arith, split_at-append s rest)

parse_field-tlv :
    (tag : ℕ) (val rest : Text) (dl : DeepLink)
    → tag < varint_limit
    → length val < varint_limit
    → parse_field (tlv tag val ++ rest) dl ≡ ok (set_field tag val dl, rest)
unfolding parse_field tlv
parse_field-tlv tag val rest dl t l =
    let body = put_varint (length val) ++ val in
    let e = append_assoc (put_varint tag) body rest in
    let f = append_assoc (put_varint (length val)) val rest in
    let g = get-put_varint tag (body ++ rest) t in
    let k = get-put_varint (length val) (val ++ rest) l in
    let s = split_at-append val rest in rw (e, g, f, k, s) refl

loop_step :
    (m : ℕ) (raw : Text) (dl : DeepLink)
    → 0 < length raw
    → parse_loop (suc m) raw dl ≡ (parse_field raw dl >>= λ turn. parse_loop m turn.1 turn.0)
unfolding parse_loop
loop_step m [] dl h = ground arith
loop_step m (c ∷ raw) dl h = refl

-- Whatever the fuel, if it is enough, the bytes are read as `res`.
abbrev Parses : Text → DeepLink → DeepLink → Type 0
Parses raw dl res = (n : ℕ) → length raw ≤ n → parse_loop n raw dl ≡ ok res

length-put_varint : (v : ℕ) → 0 < length (put_varint v)
unfolding put_varint
length-put_varint v = ground arith

length-tlv : (tag : ℕ) (val rest : Text) → length rest < length (tlv tag val ++ rest)
unfolding tlv
length-tlv tag val rest = omega (
  arith,
  length-append (put_varint tag ++ (put_varint (length val) ++ val)) rest,
  length-append (put_varint tag) (put_varint (length val) ++ val),
  length-put_varint tag,
)

tlv-Parses :
    (tag : ℕ) (val rest : Text) (dl res : DeepLink)
    → tag < varint_limit
    → length val < varint_limit
    → Parses rest (set_field tag val dl) res
    → Parses (tlv tag val ++ rest) dl res
tlv-Parses tag val rest dl res t l p zero e = absurd (omega (arith, length-tlv tag val rest, e))
tlv-Parses tag val rest dl res t l p (suc n) e =
    loop_step n (tlv tag val ++ rest) dl (omega (arith, length-tlv tag val rest))
    ∙ ap (λ r. r >>= λ turn. parse_loop n turn.1 turn.0) (parse_field-tlv tag val rest dl t l)
    ∙ p n (omega (arith, length-tlv tag val rest, e))

empty-Parses : (dl : DeepLink) → Parses [] dl dl
unfolding parse_loop
empty-Parses dl n e = refl

-- A text short enough for the encoding to carry its length.
abbrev pub IsCarried : Text → Type 0
IsCarried s = length s < varint_limit

dns-Parses : (ds : List Text) (dl : DeepLink) → IsCarried (dns_array ds) → Parses (dns_tlv ds) dl dl
unfolding set_field
dns-Parses [] dl l = empty-Parses dl
dns-Parses (d ∷ ds) dl l =
    let whole = dns_array (d ∷ ds) in
    subst (λ s. Parses s dl dl) (append-nil (tlv 13 whole))
      (tlv-Parses 13 whole [] dl dl (omega arith) l (empty-Parses dl))

addresses-Parses :
    (as_ ds : List Text) (dl : DeepLink)
    → All IsCarried as_
    → IsCarried (dns_array ds)
    → Parses (address_tlvs as_ ++ dns_tlv ds) dl (record dl { addresses = dl.addresses ++ as_ })
unfolding address_tlvs set_field
addresses-Parses [] ds dl a l =
    subst (λ xs. Parses (dns_tlv ds) dl (record dl { addresses = xs }))
      (sym (append-nil dl.addresses)) (dns-Parses ds dl l)
addresses-Parses (x ∷ xs) ds dl (h, a) l =
    let next : DeepLink = record dl { addresses = dl.addresses ++ x ∷ [] } in
    let done : List Text → DeepLink = λ us. record dl { addresses = us } in
    subst (λ s. Parses s dl (done (dl.addresses ++ x ∷ xs)))
      (sym (append_assoc (tlv 2 x) (address_tlvs xs) (dns_tlv ds)))
      (tlv-Parses 2 x (address_tlvs xs ++ dns_tlv ds) dl (done (dl.addresses ++ x ∷ xs))
        (omega arith) h
        (subst (λ us. Parses (address_tlvs xs ++ dns_tlv ds) next (done us))
          (append_assoc dl.addresses (x ∷ []) xs) (addresses-Parses xs ds next a l)))

-- The bytes of a link are read as what it was made of, if it has a host, a name and a secret, and no
-- text is too long to carry.
pub parse_bytes-link_bytes :
    (user : User) (hostname : Text) (addresses dns : List Text)
    → is_empty hostname ≡ false
    → is_empty user.username ≡ false
    → is_empty user.secret ≡ false
    → IsCarried hostname × IsCarried user.username × IsCarried user.secret
    → All IsCarried addresses
    → IsCarried (dns_array dns)
    → parse_bytes (link_bytes user hostname addresses dns)
      ≡ ok (record {
        hostname = hostname;
        username = user.username;
        password = user.secret;
        name = [];
        addresses = addresses;
      })
unfolding parse_bytes link_bytes set_field
parse_bytes-link_bytes user hostname addresses dns h u s (lh, lu, ls) a l =
    let res : DeepLink = record {
      hostname = hostname;
      username = user.username;
      password = user.secret;
      name = [];
      addresses = addresses;
    } in
    let read : Parses (link_bytes user hostname addresses dns) no_link res =
      tlv-Parses 0 (1 ∷ []) _ no_link res (omega arith) (omega arith) (
        tlv-Parses 1 hostname _ _ res (omega arith) lh (
          tlv-Parses 5 user.username _ _ res (omega arith) lu (
            tlv-Parses 6 user.secret _ _ res (omega arith) ls
              (addresses-Parses addresses dns _ a l)))) in
    ground (arith, read (length (link_bytes user hostname addresses dns)) (omega arith), h, u, s)
