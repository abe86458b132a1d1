-- ===== src/Control/Placed.antt =====
-- controller/build.go and firewall.go: where the files of a node are placed.
use trust_panel.Prelude.{
  ◌==◌, ◌≡◌, refl, sym, subst, ◌∙◌, ap, Bool, true, false, not, ◌&&◌, Bool-cases, some,
  Option-cases, List, [], ◌∷◌, ◌++◌, All, any, inl, inr, Text, codes, text_eq, text_eq_iff,
  text_eq_refl, has_prefix, is_empty, arith,
}
use trust_panel.Prelude.Result.{ok}
use trust_panel.Agent.Api.{File, Check}
use trust_panel.Agent.Host.{Host}
use trust_panel.Agent.Files.{resolve_within_roots, under_root}
use trust_panel.Agent.Payload.{Config, file_ok}
use trust_panel.Control.{
  Artifact, Layout, roots, Panel, path_for, place, file_of, firewall_allow_artifact, one_per_line,
}

-- A name without a slash that does not start with a dot.
abbrev pub is_name : Text → Bool
is_name [] = false
is_name (c ∷ s) = not (c == b'.') && not (any (λ d. d == b'/') (c ∷ s))

-- What both sides rely on: the panel and the agent take the same sums, and a directory that is clean,
-- absolute and not the root joins with a name to a clean, absolute path.
pub record IsAgreed (p : Panel) (h : Host) : Type 0 where
  pub same_sum : (b : Text) → p.sha256_hex b ≡ h.sha256_hex b
  pub joined :
      (d b : Text)
      → h.clean_path d ≡ d
      → h.is_abs d ≡ true
      → text_eq d (codes "/") ≡ false
      → is_name b ≡ true
      → (p.join d b ≡ d ++ (codes "/" ++ b))
        × (h.clean_path (d ++ (codes "/" ++ b)) ≡ d ++ (codes "/" ++ b))
        × (h.is_abs (d ++ (codes "/" ++ b)) ≡ true)

-- A directory of the layout that an agent can be told of.
abbrev pub IsRoot : Host → Text → Type 0
IsRoot h d = (h.clean_path d ≡ d) × (h.is_abs d ≡ true) × (text_eq d (codes "/") ≡ false)

has_prefix_append : (d b : Text) → has_prefix (d ++ (codes "/" ++ b)) (d ++ codes "/") ≡ true
unfolding has_prefix
has_prefix_append [] b = refl
has_prefix_append (c ∷ d) b = ground (arith, has_prefix_append d b)

plain : text_eq [] (codes "base64") ≡ false
unfolding text_eq
plain = refl

is_empty_append : (d b : Text) → is_empty (d ++ (codes "/" ++ b)) ≡ false
is_empty_append [] b = refl
is_empty_append (c ∷ d) b = refl

module _ (p : Panel) (h : Host) (law : IsAgreed p h) (l : Layout) (c : Config) where
  any_under :
      (d b : Text) (rs : List Text)
      → h.clean_path d ≡ d
      → any (λ r. text_eq r d) rs ≡ true
      → any (under_root h (d ++ (codes "/" ++ b))) rs ≡ true
  any_under d b [] k m = cc
  any_under d b (r ∷ rs) k m = elim (Bool-cases (text_eq r d)) [
    | inl e ↦
        let clean : h.clean_path r ≡ d = ap h.clean_path ((text_eq_iff r d).0 e) ∙ k in
        ground (arith, clean, has_prefix_append d b)
    | inr e ↦ ground (arith, any_under d b rs k (ground (arith, e, m)))
  ]

  under-join :
      (d b : Text)
      → IsRoot h d
      → is_name b ≡ true
      → any (λ r. text_eq r d) c.roots ≡ true
      → resolve_within_roots h c.roots (p.join d b) ≡ some (p.join d b)
  unfolding resolve_within_roots
  under-join d b (k, a, n) e m =
      let (j, cl, ab) = law.joined d b k a n e in
      let under = any_under d b c.roots k m in ground (arith, j, cl, ab, under, is_empty_append d b)

  file_ok_of_sum :
      (f : File)
      → resolve_within_roots h c.roots f.path ≡ some f.path
      → text_eq f.encoding (codes "base64") ≡ false
      → h.sha256_hex f.body ≡ f.sha256
      → file_ok h c f ≡ ok tt
  unfolding file_ok
  file_ok_of_sum f r e s = ground (arith, r, e, (text_eq_iff (h.sha256_hex f.body) f.sha256).1 s)

  module _ (tt_root : IsRoot h l.trust_tunnel_dir) (sb_root : IsRoot h l.sing_box_dir)
      (told : c.roots ≡ roots l) where
    of_trust_tunnel :
        (b : Text)
        → is_name b ≡ true
        → resolve_within_roots h c.roots (p.join l.trust_tunnel_dir b)
          ≡ some (p.join l.trust_tunnel_dir b)
    of_trust_tunnel b e =
        under-join l.trust_tunnel_dir b tt_root e
          (rw told (ground (arith, text_eq_refl l.trust_tunnel_dir)))

    of_sing_box :
        (b : Text)
        → is_name b ≡ true
        → resolve_within_roots h c.roots (p.join l.sing_box_dir b) ≡ some (p.join l.sing_box_dir b)
    of_sing_box b e =
        under-join l.sing_box_dir b sb_root e
          (rw told (ground (arith, text_eq_refl l.sing_box_dir)))

    named : Text → List Text → Bool
    named b names = any (text_eq b) names

    is_name-any :
        (b : Text) (names : List Text)
        → All (λ n. is_name n ≡ true) names
        → any (text_eq b) names ≡ true
        → is_name b ≡ true
    is_name-any b [] a e = cc
    is_name-any b (n ∷ names) (x, a) e = elim (Bool-cases (text_eq b n)) [
      | inl k ↦ ap is_name ((text_eq_iff b n).0 k) ∙ x
      | inr k ↦ is_name-any b names a (ground (arith, e, k))
    ]

    path_for-resolves :
        (artifact abs : Text)
        → path_for p l artifact ≡ some abs
        → resolve_within_roots h c.roots abs ≡ some abs
    unfolding path_for
    path_for-resolves artifact abs e =
        let base = p.base_of artifact in
        let names =
          codes "credentials.toml"
          ∷ (codes "vpn.toml" ∷ (codes "hosts.toml" ∷ (codes "rules.toml" ∷ []))) in
        elim (Bool-cases (any (text_eq base) names)) [
          | inl a ↦
              let at_ : p.join l.trust_tunnel_dir base ≡ abs = ground (arith, e, a) in
              subst (λ x. resolve_within_roots h c.roots x ≡ some x) at_
                (of_trust_tunnel base (is_name-any base names (refl, (refl, (refl, (refl, tt)))) a))
          | inr a ↦ elim (Bool-cases (text_eq base (codes "sing-box.json"))) [
            | inl b ↦
                let at_ : p.join l.sing_box_dir (codes "sing-box.json") ≡ abs =
                  ground (arith, e, a, b) in
                subst (λ x. resolve_within_roots h c.roots x ≡ some x) at_
                  (of_sing_box (codes "sing-box.json") refl)
            | inr b ↦ ground (arith, e, a, b)
          ]
        ]

    -- The artifacts whose sum is that of their content are files that the agent accepts.
    pub place-accepted :
        (artifacts : List Artifact) (fs : List File) (cs : List Check)
        → All (λ a. h.sha256_hex a.content ≡ a.sha256) artifacts
        → place p l artifacts ≡ some (fs, cs)
        → All (λ f. file_ok h c f ≡ ok tt) fs
    unfolding place
    place-accepted [] fs cs s e =
        let eq : [] ≡ fs = ground (arith, e) in subst (All (λ f. file_ok h c f ≡ ok tt)) eq tt
    place-accepted (a ∷ rest) fs cs (x, s) e = elim (Option-cases (path_for p l a.path)) [
      | inl k ↦ ground (arith, e, k)
      | inr (abs, k) ↦ elim (Option-cases (place p l rest)) [
        | inl m ↦ ground (arith, e, k, m)
        | inr ((gs, ds), m) ↦
            let eq : file_of p abs a ∷ gs ≡ fs = ground (arith, e, k, m) in
            subst (All (λ f. file_ok h c f ≡ ok tt)) eq (
              file_ok_of_sum (file_of p abs a) (path_for-resolves a.path abs k) plain x,
              place-accepted rest gs ds s m,
            )
      ]
    ]

    pub firewall-accepted :
        (ips : List Text) → file_ok h c (firewall_allow_artifact p l.sing_box_dir ips) ≡ ok tt
    unfolding firewall_allow_artifact
    firewall-accepted ips =
        file_ok_of_sum (firewall_allow_artifact p l.sing_box_dir ips)
          (of_sing_box (codes "control-allow.conf") refl) plain
          (sym (law.same_sum (one_per_line ips)))
