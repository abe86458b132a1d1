-- ===== src/Client/Extract.antt =====
-- deeplink.go: finding the payload in what an operator pastes.
use trust_panel.Prelude.{
  ℕ, ◌≡◌, refl, sym, subst, ◌∙◌, ap, ◌==◌, leb, Bool, true, false, ◌&&◌, ◌||◌, none, some, [], ◌∷◌,
  ◌++◌, All, All-append, any, reverse, Text, codes, is_space, drop_spaces, trim_space, arith,
}
use mathlib.Core.List.{append_assoc, reverse-append, reverse-reverse}
use trust_panel.Client.DeepLink.{
  cut_prefix, after_first, until_end, ends_fragment, in_fragment, separators, after_scheme,
  extract_payload, default_qr_path,
}

-- The alphabet of base64 for addresses.
abbrev pub is_url64 : ℕ → Bool
is_url64 c =
    (leb 65 c && leb c 90)
    || (leb 97 c && leb c 122)
    || (leb 48 c && leb c 57)
    || c == b'-'
    || c == b'_'

abbrev pub IsSolid : ℕ → Type 0
IsSolid c = is_space c ≡ false

pub All-weaken : {P Q : ℕ → Type 0} (xs : Text) → ((c : ℕ) → P c → Q c) → All P xs → All Q xs
All-weaken [] f a = tt
All-weaken (x ∷ xs) f (h, a) = (f x h, All-weaken xs f a)

All-reverse : (P : ℕ → Type 0) (xs : Text) → All P xs → All P (reverse xs)
All-reverse P [] a = tt
All-reverse P (x ∷ xs) (h, a) =
    subst (All P) (sym (reverse-append (x ∷ []) xs))
      (All-append P (reverse xs) (x ∷ []) (All-reverse P xs a) (h, tt))

drop_spaces-Solid : (s : Text) → All IsSolid s → drop_spaces s ≡ s
unfolding drop_spaces
drop_spaces-Solid [] a = refl
drop_spaces-Solid (c ∷ s) (h, a) = rw h refl

pub trim_space-Solid : (s : Text) → All IsSolid s → trim_space s ≡ s
unfolding trim_space
trim_space-Solid s a =
    rw (drop_spaces-Solid s a, drop_spaces-Solid (reverse s) (All-reverse IsSolid s a))
      (reverse-reverse s)

-- A separator is not found where one of its bytes does not occur.
cut_prefix-absent :
    (x : ℕ) (sep s : Text)
    → any (λ c. c == x) sep ≡ true
    → All (λ c. (c == x) ≡ false) s
    → cut_prefix sep s ≡ none
unfolding cut_prefix
cut_prefix-absent x [] s e a = cc
cut_prefix-absent x (p ∷ ps) [] e a = refl
cut_prefix-absent x (p ∷ ps) (c ∷ s) e (h, a) =
    ground (arith, e, h, λ (k : any (λ d. d == x) ps ≡ true). cut_prefix-absent x ps s k a)

after_first-absent :
    (x : ℕ) (sep s : Text)
    → any (λ c. c == x) sep ≡ true
    → All (λ c. (c == x) ≡ false) s
    → after_first sep s ≡ none
unfolding after_first
after_first-absent x sep [] e a = refl
after_first-absent x sep (c ∷ s) e (h, a) =
    ground (arith, cut_prefix-absent x sep (c ∷ s) e (h, a), after_first-absent x sep s e a)

cut_prefix_self : (mark rest : Text) → cut_prefix mark (mark ++ rest) ≡ some rest
unfolding cut_prefix
cut_prefix_self [] rest = refl
cut_prefix_self (m ∷ mark) rest = ground (arith, cut_prefix_self mark rest)

-- The first place of the mark after a text without its first byte.
after_first-mark :
    (x : ℕ) (mark s rest : Text)
    → All (λ c. (c == x) ≡ false) s
    → after_first (x ∷ mark) (s ++ (x ∷ mark ++ rest)) ≡ some rest
unfolding after_first cut_prefix
after_first-mark x mark [] rest a = ground (arith, cut_prefix_self mark rest)
after_first-mark x mark (c ∷ s) rest (h, a) = ground (arith, h, after_first-mark x mark s rest a)

until_end-whole : (s : Text) → All (λ c. ends_fragment c ≡ false) s → until_end s ≡ s
unfolding until_end
until_end-whole [] a = refl
until_end-whole (c ∷ s) (h, a) = ground (arith, h, until_end-whole s a)

pub url64-is_space : (c : ℕ) → is_url64 c ≡ true → is_space c ≡ false
url64-is_space c h = ground arith

url64-ends_fragment : (c : ℕ) → is_url64 c ≡ true → ends_fragment c ≡ false
url64-ends_fragment c h = ground arith

url64-equals : (c : ℕ) → is_url64 c ≡ true → (c == b'=') ≡ false
url64-equals c h = ground arith

-- Without an equals sign there is no fragment.
in_fragment-scheme :
    (s : Text) → All (λ c. (c == b'=') ≡ false) s → in_fragment s separators ≡ after_scheme s
in_fragment-scheme s a = ground (
  arith,
  after_first-absent b'=' (codes "#tt=") s refl a,
  after_first-absent b'=' (codes "?tt=") s refl a,
  after_first-absent b'=' (codes "&tt=") s refl a,
)

after_scheme-payload : (p : Text) → after_scheme (codes "tt://?" ++ p) ≡ p
unfolding cut_prefix
after_scheme-payload p = refl

module _ (p : Text) (abc : All (λ c. is_url64 c ≡ true) p) where
  pub extract-scheme : extract_payload (codes "tt://?" ++ p) ≡ p
  unfolding extract_payload
  extract-scheme =
      let s = codes "tt://?" ++ p in
      let solid : All IsSolid s =
        (refl, (refl, (refl, (refl, (refl, (refl, All-weaken p url64-is_space abc)))))) in
      let plain : All (λ c. (c == b'=') ≡ false) s =
        (refl, (refl, (refl, (refl, (refl, (refl, All-weaken p url64-equals abc)))))) in
      ap (λ t. in_fragment t separators) (trim_space-Solid s solid)
      ∙ in_fragment-scheme s plain
      ∙ after_scheme-payload p

  extract-landing :
      (origin : Text)
      → All IsSolid origin
      → All (λ c. (c == b'#') ≡ false) origin
      → extract_payload (origin ++ (codes "#tt=" ++ p)) ≡ p
  unfolding extract_payload
  extract-landing origin s m =
      let t = origin ++ (codes "#tt=" ++ p) in
      let solid : All IsSolid t =
        All-append IsSolid origin (codes "#tt=" ++ p) s
          (refl, (refl, (refl, (refl, All-weaken p url64-is_space abc)))) in
      let e = after_first-mark b'#' (codes "tt=") origin p m in
      let whole = until_end-whole p (All-weaken p url64-ends_fragment abc) in
      ap (λ u. in_fragment u separators) (trim_space-Solid t solid)
      ∙ (ground (arith, e)
          ∙ (ap trim_space whole ∙ trim_space-Solid p (All-weaken p url64-is_space abc)))

All-of_any : (f : ℕ → Bool) (s : Text) → any f s ≡ false → All (λ c. f c ≡ false) s
All-of_any f [] e = tt
All-of_any f (c ∷ s) e = (ground (arith, e), All-of_any f s (ground (arith, e)))

-- The landing link for a host.
abbrev pub qr_of : Text → Text → Text
qr_of land p = codes "https://" ++ (land ++ (default_qr_path ++ (codes "#tt=" ++ p)))

-- A byte that a host can have in front of a fragment.
abbrev pub IsHostByte : ℕ → Type 0
IsHostByte c = (is_space c ≡ false) × ((c == b'#') ≡ false)

pub extract-qr :
    (p : Text)
    → All (λ c. is_url64 c ≡ true) p
    → (land : Text) → All IsHostByte land
    → extract_payload (qr_of land p) ≡ p
extract-qr p abc land host =
    let mark = codes "#tt=" ++ p in
    let origin = codes "https://" ++ (land ++ default_qr_path) in
    let of_host : (f : ℕ → Bool)
        → any f (codes "https://") ≡ false
        → any f default_qr_path ≡ false
        → All (λ c. f c ≡ false) land
        → All (λ c. f c ≡ false) origin =
      λ f x y m.
        All-append (λ c. f c ≡ false) (codes "https://") (land ++ default_qr_path)
          (All-of_any f (codes "https://") x)
          (All-append (λ c. f c ≡ false) land default_qr_path m (All-of_any f default_qr_path y)) in
    ap (λ t. extract_payload (codes "https://" ++ t)) (sym (append_assoc land default_qr_path mark))
    ∙ extract-landing p abc origin (of_host is_space refl refl (All-weaken land (λ c q. q.0) host))
        (of_host (λ c. c == b'#') refl refl (All-weaken land (λ c q. q.1) host))
