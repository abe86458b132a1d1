-- ===== src/Client/Termination.antt =====
-- deeplink.go: the loop of ParseDeepLink ends, whatever it is given.
use trust_panel.Prelude.{
  ℕ, zero, suc, ◌≡◌, ◌≢◌, refl, subst, ap, ◌⊎◌, ◌+◌, ◌<◌, ◌≤◌, ◌==◌, ◌/◌, ◌%◌, Option, none, some,
  [], ◌∷◌, length, Option-cases, Bool-cases, inl, inr, Text, arith,
}
use trust_panel.Prelude.Result.{ok, err}
use trust_panel.Client.Varint.{get_varint, varint2, varint4, varint8}
use trust_panel.Client.DeepLink.{
  Base64, DeepLink, no_link, set_field, split_at, parse_field, parse_loop, parse_bytes,
  parse_deep_link, decode_b64, extract_payload, truncated, out_of_fuel,
}

-- A piece is read from the front, and `n` bytes at least are used up.
abbrev Shrinks : ℕ → Text → Option (ℕ × Text) → Type 0
Shrinks n s none = Unit {0}
Shrinks n s (some p) = n + length p.1 ≤ length s

varint2-Shrinks : (v : ℕ) (s : Text) → Shrinks 0 s (varint2 v s)
varint2-Shrinks v [] = tt
varint2-Shrinks v (b ∷ s) = omega arith

varint4-Shrinks : (v : ℕ) (s : Text) → Shrinks 0 s (varint4 v s)
varint4-Shrinks v [] = tt
varint4-Shrinks v (b ∷ []) = tt
varint4-Shrinks v (b ∷ (c ∷ [])) = tt
varint4-Shrinks v (b ∷ (c ∷ (d ∷ s))) = omega arith

varint8-Shrinks : (v : ℕ) (s : Text) → Shrinks 0 s (varint8 v s)
varint8-Shrinks v [] = tt
varint8-Shrinks v (b ∷ []) = tt
varint8-Shrinks v (b ∷ (c ∷ [])) = tt
varint8-Shrinks v (b ∷ (c ∷ (d ∷ []))) = tt
varint8-Shrinks v (b ∷ (c ∷ (d ∷ (e ∷ [])))) = tt
varint8-Shrinks v (b ∷ (c ∷ (d ∷ (e ∷ (f ∷ []))))) = tt
varint8-Shrinks v (b ∷ (c ∷ (d ∷ (e ∷ (f ∷ (g ∷ [])))))) = tt
varint8-Shrinks v (b ∷ (c ∷ (d ∷ (e ∷ (f ∷ (g ∷ (h ∷ s))))))) = omega arith

front : (f : ℕ) (s : Text) (o : Option (ℕ × Text)) → Shrinks 0 s o → Shrinks 1 (f ∷ s) o
front f s none h = tt
front f s (some p) h = omega (arith, h)

get_varint-Shrinks : (s : Text) → Shrinks 1 s (get_varint s)
unfolding get_varint
get_varint-Shrinks [] = tt
get_varint-Shrinks (f ∷ s) = elim (Bool-cases (f / 64 == 0)) [
  | inl a ↦ rw a (omega arith)
  | inr a ↦ elim (Bool-cases (f / 64 == 1)) [
    | inl b ↦ rw (a, b) (front f s (varint2 (f % 64) s) (varint2-Shrinks (f % 64) s))
    | inr b ↦ elim (Bool-cases (f / 64 == 2)) [
      | inl k ↦ rw (a, b, k) (front f s (varint4 (f % 64) s) (varint4-Shrinks (f % 64) s))
      | inr k ↦ rw (a, b, k) (front f s (varint8 (f % 64) s) (varint8-Shrinks (f % 64) s))
    ]
  ]
]

split_at-length : (n : ℕ) (s a b : Text) → split_at n s ≡ some (a, b) → length b ≤ length s
unfolding split_at
split_at-length zero s a b e = ground (arith, ap (λ o. o) e)
split_at-length (suc n) [] a b e = cc
split_at-length (suc n) (c ∷ s) a b e = elim (Option-cases (split_at n s)) [
  | inl g ↦ ground (arith, e, g)
  | inr (p, g) ↦ ground (arith, e, g, split_at-length n s p.0 p.1 g)
]

shrinks_some : (n : ℕ) (s : Text) (p : ℕ × Text) → get_varint s ≡ some p → 1 + length p.1 ≤ length s
shrinks_some n s p e = subst (Shrinks 1 s) e (get_varint-Shrinks s)

-- A turn of the loop is an error, or uses up a byte.
parse_field-ends :
    (raw : Text) (dl : DeepLink)
    → (parse_field raw dl ≡ err truncated)
      ⊎ ((turn : DeepLink × Text) × (parse_field raw dl ≡ ok turn) × (length turn.1 < length raw))
unfolding parse_field
parse_field-ends raw dl = elim (Option-cases (get_varint raw)) [
  | inl a ↦ inl (ground (arith, a))
  | inr (t, a) ↦ elim (Option-cases (get_varint t.1)) [
    | inl b ↦ inl (ground (arith, a, b))
    | inr (u, b) ↦ elim (Option-cases (split_at u.0 u.1)) [
      | inl k ↦ inl (ground (arith, a, b, k))
      | inr (c, k) ↦ inr (
        (set_field t.0 c.0 dl, c.1),
        ground (arith, a, b, k),
        omega (
          arith,
          shrinks_some 0 raw t a,
          shrinks_some 0 t.1 u b,
          split_at-length u.0 u.1 c.0 c.1 k,
        ),
      )
    ]
  ]
]

pub parse_loop-ends :
    (n : ℕ) (raw : Text) (dl : DeepLink)
    → length raw ≤ n
    → (parse_loop n raw dl ≡ err truncated) ⊎ ((res : DeepLink) × (parse_loop n raw dl ≡ ok res))
unfolding parse_loop
parse_loop-ends n [] dl h = inr (dl, refl)
parse_loop-ends zero (c ∷ raw) dl h = absurd (omega (arith, h))
parse_loop-ends (suc n) (c ∷ raw) dl h = elim (parse_field-ends (c ∷ raw) dl) [
  | inl e ↦ inl (rw e refl)
  | inr (turn, e, l) ↦ elim (parse_loop-ends n turn.1 turn.0 (omega (arith, h, l))) [
    | inl f ↦ inl (rw e f)
    | inr (res, f) ↦ inr (res, rw e f)
  ]
]

-- Whatever text it is given, and whatever the decodings of base64 do, ParseDeepLink ends: the fuel of
-- the model is never used up.
pub parse_deep_link-ends : (b : Base64) (s : Text) → parse_deep_link b s ≢ err out_of_fuel
unfolding parse_deep_link parse_bytes
parse_deep_link-ends b s =
    let payload = extract_payload s in
    elim (Option-cases (decode_b64 b payload)) [
      | inl e ↦ ground (arith, e)
      | inr (raw, e) ↦ elim (parse_loop-ends (length raw) raw no_link (omega arith)) [
        | inl f ↦ ground (arith, e, f)
        | inr (res, f) ↦ ground (arith, e, f)
      ]
    ]
