-- ===== src/Render/Netip.antt =====
-- Package net/netip as the program sees it, and the values of a condition as both readers clean
-- them (render/singbox.go, render/routesim.go).
use trust_panel.Prelude.{
  ℕ, Bool, Option, none, some, List, [], ◌∷◌, ◌++◌, if◌then◌else◌, Text, codes, trim_space,
  trim_dot, to_lower, is_empty,
}

-- The operations that the program calls. Nothing is assumed of them.
pub record Netip : Type 1 where
  pub Addr : Type 0
  pub Prefix : Type 0
  pub parse_addr : Text → Option Addr
  pub parse_prefix : Text → Option Prefix
  pub is6 : Addr → Bool
  pub prefix_from : Addr → ℕ → Prefix
  pub prefix_text : Prefix → Text
  pub contains : Prefix → Addr → Bool

module _ (net : Netip) where
  open net use {parse_addr, parse_prefix, is6, prefix_from, prefix_text}

  -- normalizeCIDR
  unfoldable pub normalize_cidr : Text → Text
  normalize_cidr value =
      let v = trim_space value in
      elim (parse_prefix v) [
        | some p ↦ prefix_text p
        | none ↦ elim (parse_addr v) [
          | some a ↦ prefix_text (prefix_from a (if is6 a then 128 else 32))
          | none ↦ []
        ]
      ]

-- `f` of every value, less the blank results.
unfoldable pub clean_by : (Text → Text) → List Text → List Text
clean_by f [] = []
clean_by f (v ∷ vs) =
    let t = f v in let rest = clean_by f vs in if is_empty t then rest else t ∷ rest

abbrev pub clean_suffix : Text → Text
clean_suffix d = trim_dot (trim_space (to_lower d))

-- cleanSuffixes
abbrev pub clean_suffixes : List Text → List Text
clean_suffixes = clean_by clean_suffix

abbrev pub clean_geo : Text → Text
clean_geo g = to_lower (trim_space g)

abbrev pub geoip_tag : Text → Text
geoip_tag g = codes "geoip-" ++ g

abbrev pub geosite_tag : Text → Text
geosite_tag g = codes "geosite-" ++ g
