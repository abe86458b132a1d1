-- ===== src/Model/Policy/Reading.antt =====
-- How a rule's match reads: the tree of MatchTree against a left-to-right reading of the list, and
-- the older four-field shape against the sentence that describes it.
use trust_panel.Prelude.{
  ℕ, ◌+◌, ◌≡◌, refl, Bool, not, ◌&&◌, ◌||◌, Option, none, some, List, [], ◌∷◌, arith, Text, ◌++◌,
  sym, ◌∙◌, ap,
}
use trust_panel.Model.Policy.{
  RoutePolicy, RouteCondition, CondKind, add_condition, add_exclusion, MatchNode, Op, leaf, node,
  op_and, op_or, op_except, Join, join_and, join_or, join_except, other_join, join_op, match_loop,
  match_tree, clean_values, legacy_conditions, cond_domain, cond_geoip, cond_geosite, cond_cidr,
}

-- What one line does to the answer of those above it.
abbrev pub joined : Join → Bool → Bool → Bool
joined join_and a b = a && b
joined join_or a b = a || b
joined join_except a b = a && not b
joined (other_join _) a b = a && b

-- What one word does to the answer so far.
abbrev pub combine : Op → Bool → Bool → Bool
combine op_and a b = a && b
combine op_or a b = a || b
combine op_except a b = a && not b

combine-join_op : (j : Join) (a b : Bool) → combine (join_op j) a b ≡ joined j a b
combine-join_op join_and a b = refl
combine-join_op join_or a b = refl
combine-join_op join_except a b = refl
combine-join_op (other_join _) a b = refl

module _ (hit : RouteCondition → Bool) where
  -- The truth of a tree, given that of its conditions.
  unfoldable pub holds : MatchNode → Bool
  holds (leaf c) = hit c
  holds (node op l r) = combine op (holds l) (holds r)

  -- Each line joins to everything above it.
  unfoldable pub read_on : Bool → List RouteCondition → Bool
  read_on acc [] = acc
  read_on acc (c ∷ cs) = read_on (joined c.join acc (hit c)) cs

  loop-reads :
      (i : ℕ) (t : MatchNode) (cs : List RouteCondition)
      → (u : MatchNode) × (match_loop i (some t) cs ≡ some u) × (holds u ≡ read_on (holds t) cs)
  unfolding match_loop holds read_on
  loop-reads i t [] = (t, refl, refl)
  loop-reads i t (c ∷ cs) =
      let (u, made, same) = loop-reads (i + 1) (node (join_op c.join) t (leaf c)) cs in
      (u, made, same ∙ ap (λ b. read_on b cs) (combine-join_op c.join (holds t) (hit c)))

  -- The tree of a list is there unless the list is empty, and its truth is that of reading the list
  -- from the top, each condition joined to the answer so far; the first one's join is not read.
  pub match_tree-reads :
      (c : RouteCondition) (cs : List RouteCondition)
      → (t : MatchNode) × (match_tree (c ∷ cs) ≡ some t) × (holds t ≡ read_on (hit c) cs)
  unfolding match_tree holds
  match_tree-reads c cs = loop-reads 1 (leaf c) cs

  -- The answer of a condition list, or nothing for an empty list.
  unfoldable pub reading : List RouteCondition → Option Bool
  reading [] = none
  reading (c ∷ cs) = some (read_on (hit c) cs)

  pub holds-match_tree :
      (cs : List RouteCondition) (t : MatchNode)
      → match_tree cs ≡ some t
      → reading cs ≡ some (holds t)
  unfolding reading
  holds-match_tree [] t h = unfold match_tree in cc
  holds-match_tree (c ∷ cs) t h = let (u, made, same) = match_tree-reads c cs in ground arith

  read_on-append :
      (b : Bool) (cs ds : List RouteCondition) → read_on b (cs ++ ds) ≡ read_on (read_on b cs) ds
  unfolding read_on
  read_on-append b [] ds = refl
  read_on-append b (c ∷ cs) ds = read_on-append (joined c.join b (hit c)) cs ds

-- Two answers under a word, where a missing one leaves the other as it is.
abbrev pub merge : Op → Option Bool → Option Bool → Option Bool
merge op none b = b
merge op (some a) none = some a
merge op (some a) (some b) = some (combine op a b)

-- An exclusion says nothing where there is nothing to exclude from.
abbrev pub exclude : Option Bool → Option Bool → Option Bool
exclude none b = none
exclude (some a) none = some a
exclude (some a) (some b) = some (a && not b)

-- A field of the older form: nothing if it is blank, and else whether its values hit.
abbrev pub field : (CondKind → List Text → Bool) → CondKind → List Text → Option Bool
field hit k vs = elim vs [ [] ↦ none | v ∷ ws ↦ some (hit k (v ∷ ws)) ]

module _ (hit : CondKind → List Text → Bool) where
  abbrev hits : RouteCondition → Bool
  hits c = hit c.kind c.values

  reading-add :
      (out : List RouteCondition) (j : Join) (k : CondKind) (vs : List Text)
      → reading hits (add_condition out j k vs)
        ≡ merge (join_op j) (reading hits out) (field hit k vs)
  unfolding add_condition reading read_on
  reading-add [] j k [] = refl
  reading-add (c ∷ out) j k [] = refl
  reading-add [] j k (v ∷ vs) = refl
  reading-add (c ∷ out) j k (v ∷ vs) =
      rw (read_on-append hits (hits c) out _) (ap some (sym (combine-join_op j _ _)))

  reading-exclusion :
      (out : List RouteCondition) (vs : List Text)
      → reading hits (add_exclusion out vs) ≡ exclude (reading hits out) (field hit cond_domain vs)
  unfolding add_exclusion reading read_on
  reading-exclusion [] vs = refl
  reading-exclusion (c ∷ out) [] = refl
  reading-exclusion (c ∷ out) (v ∷ vs) = rw (read_on-append hits (hits c) out _) refl

  -- The sentence that describes the older form: (geoip or geosite) and domains and cidrs, but not
  -- the excluded domains. A blank field is left out of it.
  abbrev pub legacy_sentence : RoutePolicy → Option Bool
  legacy_sentence p =
      exclude
        (merge op_and
          (merge op_and
            (merge op_or (field hit cond_geoip (clean_values p.match_geoip))
              (field hit cond_geosite (clean_values p.match_geosite)))
            (field hit cond_domain (clean_values p.match_domains)))
          (field hit cond_cidr (clean_values p.match_cidrs)))
        (field hit cond_domain (clean_values p.exclude_domains))

  reading-legacy : (p : RoutePolicy) → reading hits (legacy_conditions p) ≡ legacy_sentence p
  unfolding legacy_conditions
  reading-legacy p = simp (reading-exclusion, reading-add) (unfold reading in refl)

  -- A rule of the older form whose conditions fold into a tree matches exactly what that sentence
  -- says.
  pub legacy_conditions-reads :
      (p : RoutePolicy) (t : MatchNode)
      → match_tree (legacy_conditions p) ≡ some t
      → some (holds hits t) ≡ legacy_sentence p
  legacy_conditions-reads p t h =
      sym (holds-match_tree hits (legacy_conditions p) t h) ∙ reading-legacy p
