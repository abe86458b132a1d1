-- ===== src/Model/State/References.antt =====
-- What State.Validate guarantees: unique keys, and references that lead to what they name.
use mathlib.Core.List.{Memᴰ}
use trust_panel.Prelude.{
  ◌≡◌, refl, ◌⊎◌, inl, inr, ◌≢◌, Bool, true, false, ◌||◌, List, [], ◌∷◌, any, All, arith, Text,
  text_eq, text_eq_iff, is_empty, Bool-cases, sym, map,
}
use trust_panel.Prelude.Result.{ok, fail_if}
use trust_panel.Model.Node.{Node, Group, User, ModelError, is_exit, exit_direct, node_validate}
use trust_panel.Model.State.{find_node, is_exit_id, validate_nodes, validate_groups, validate_users}

-- `id` is the id of an exit node of the list.
abbrev pub NamesExitNode : List Node → Text → Type 0
NamesExitNode nodes id = (n : Node) × Memᴰ n nodes × (n.id ≡ id) × (is_exit n ≡ true)

abbrev pub NamesGroup : List Group → Text → Type 0
NamesGroup groups id = (g : Group) × Memᴰ g groups × (g.id ≡ id)

-- No text stands twice in the list.
abbrev pub Distinct : List Text → Type 0
Distinct [] = Unit
Distinct (x ∷ xs) = All (λ y. x ≢ y) xs × Distinct xs

fail_if-ok : (b : Bool) (e : ModelError) → fail_if b e ≡ ok tt → b ≡ false
fail_if-ok b e h = ground arith

exit_id-mem : (ns : List Node) (id : Text) → is_exit_id ns id ≡ true → NamesExitNode ns id
unfolding is_exit_id find_node
exit_id-mem [] id h = cc
exit_id-mem (n ∷ ns) id h = elim (Bool-cases (text_eq n.id id)) [
  | inl e ↦ (n, Memᴰ.head refl, (text_eq_iff n.id id).0 e, ground arith)
  | inr e ↦
      let (m, at, same, exit) = exit_id-mem ns id (ground arith) in (m, Memᴰ.tail at, same, exit)
]

either_false : (a b : Bool) → (a || b) ≡ false → (a ≡ false) × (b ≡ false)
either_false a b h = ground arith

-- What is new to `x` and to what the test knows differs from `x` and is new to the test.
split_fresh :
    (x : Text) (test : Text → Bool) (ys : List Text)
    → All (λ y. (text_eq y x || test y) ≡ false) ys
    → All (λ y. x ≢ y) ys × All (λ y. test y ≡ false) ys
split_fresh x test [] h = (tt, tt)
split_fresh x test (y ∷ ys) (h, hs) =
    let (a, b) = split_fresh x test ys hs in
    let (other, new) = either_false (text_eq y x) (test y) h in
    ((λ e. cc ((text_eq_iff y x).1 (sym e), other), a), (new, b))

node_step :
    (seen : List Node) (n : Node) (ns out : List Node)
    → validate_nodes seen (n ∷ ns) ≡ ok out
    → (node_validate n ≡ ok tt)
      × (any (λ m. text_eq n.id m.id) seen ≡ false)
      × (validate_nodes (n ∷ seen) ns ≡ ok out)
unfolding validate_nodes
node_step seen n ns out h = ground arith

pub validate_nodes-keys :
    (seen ns out : List Node)
    → validate_nodes seen ns ≡ ok out
    → All (λ y. any (λ m. text_eq y m.id) seen ≡ false) (map (λ n. n.id) ns)
      × Distinct (map (λ n. n.id) ns)
validate_nodes-keys seen [] out h = (tt, tt)
validate_nodes-keys seen (n ∷ ns) out h =
    let (passed, fresh, rest) = node_step seen n ns out h in
    let (news, ds) = validate_nodes-keys (n ∷ seen) ns out rest in
    let (ne, old) =
      split_fresh n.id (λ y. any (λ m. text_eq y m.id) seen) (map (λ n. n.id) ns) news in
    ((fresh, old), (ne, ds))

validate_nodes-seen :
    (seen ns : List Node) (out : List Node)
    → validate_nodes seen ns ≡ ok out
    → (n : Node) → Memᴰ n out
    → Memᴰ n seen ⊎ Memᴰ n ns
validate_nodes-seen seen [] out h n m =
    let e : out ≡ seen = unfold validate_nodes in cc in inl (rw e at m)
validate_nodes-seen seen (x ∷ ns) out h n m =
    elim (validate_nodes-seen (x ∷ seen) ns out (node_step seen x ns out h).2 n m) [
      | inl (Memᴰ.head e) ↦ inr (Memᴰ.head e)
      | inl (Memᴰ.tail k) ↦ inl k
      | inr k ↦ inr (Memᴰ.tail k)
    ]

-- What `validate_nodes` returns holds nothing but the nodes that it was given.
pub exit_id-names :
    (ns out : List Node) (id : Text)
    → validate_nodes [] ns ≡ ok out
    → is_exit_id out id ≡ true
    → NamesExitNode ns id
exit_id-names ns out id h e =
    let (n, at, same, exit) = exit_id-mem out id e in
    elim (validate_nodes-seen [] ns out h n at) [ inl k ↦ elim k [ ] | inr k ↦ (n, k, same, exit) ]

-- What a group's default exit may be: unset, the word for a direct way out, or an exit node.
abbrev pub DefaultExitIsSound : List Node → Group → Type 0
DefaultExitIsSound nodes g =
    (g.default_exit_id ≡ [])
    ⊎ ((g.default_exit_id ≡ exit_direct) ⊎ NamesExitNode nodes g.default_exit_id)

group_step :
    (nodes : List Node) (seen : List Text) (g : Group) (gs : List Group) (out : List Text)
    → validate_groups nodes seen (g ∷ gs) ≡ ok out
    → (any (text_eq g.id) seen ≡ false)
      × ((is_empty g.default_exit_id
            || (text_eq g.default_exit_id exit_direct || is_exit_id nodes g.default_exit_id))
          ≡ true)
      × (validate_groups nodes (g.id ∷ seen) gs ≡ ok out)
unfolding validate_groups
group_step nodes seen g gs out h = (ground arith, ground arith, ground arith)

pub empty-nil : (t : Text) → is_empty t ≡ true → t ≡ []
empty-nil [] h = refl
empty-nil (c ∷ t) h = cc

module _ (nodes out_nodes : List Node) (checked : validate_nodes [] nodes ≡ ok out_nodes) where
  default_exit_sound :
      (g : Group)
      → (is_empty g.default_exit_id
          || (text_eq g.default_exit_id exit_direct || is_exit_id out_nodes g.default_exit_id))
        ≡ true
      → DefaultExitIsSound nodes g
  default_exit_sound g h = elim (Bool-cases (is_empty g.default_exit_id)) [
    | inl e ↦ inl (empty-nil g.default_exit_id e)
    | inr e ↦ elim (Bool-cases (text_eq g.default_exit_id exit_direct)) [
      | inl d ↦ inr (inl ((text_eq_iff g.default_exit_id exit_direct).0 d))
      | inr d ↦ inr (inr (exit_id-names nodes out_nodes g.default_exit_id checked (ground arith)))
    ]
  ]

  pub validate_groups_sound :
      (seen : List Text) (gs : List Group) (out : List Text)
      → validate_groups out_nodes seen gs ≡ ok out
      → All (DefaultExitIsSound nodes) gs
        × (All (λ y. any (text_eq y) seen ≡ false) (map (λ g. g.id) gs)
            × Distinct (map (λ g. g.id) gs))
  validate_groups_sound seen [] out h = (tt, (tt, tt))
  validate_groups_sound seen (g ∷ gs) out h =
      let (fresh, sound, rest) = group_step out_nodes seen g gs out h in
      let (sounds, (news, ds)) = validate_groups_sound (g.id ∷ seen) gs out rest in
      let (ne, old) = split_fresh g.id (λ y. any (text_eq y) seen) (map (λ k. k.id) gs) news in
      ((default_exit_sound g sound, sounds), ((fresh, old), (ne, ds)))

pub validate_groups-seen :
    (nodes : List Node) (seen : List Text) (gs : List Group) (out : List Text) (id : Text)
    → validate_groups nodes seen gs ≡ ok out
    → any (text_eq id) out ≡ true
    → (any (text_eq id) seen ≡ true) ⊎ NamesGroup gs id
validate_groups-seen nodes seen [] out id h m =
    let e : out ≡ seen = unfold validate_groups in cc in inl (rw e at m)
validate_groups-seen nodes seen (g ∷ gs) out id h m =
    elim (validate_groups-seen nodes (g.id ∷ seen) gs out id (group_step nodes seen g gs out h).2
      m) [
        | inl k ↦ elim (Bool-cases (text_eq id g.id)) [
          | inl e ↦ inr (g, Memᴰ.head refl, sym ((text_eq_iff id g.id).0 e))
          | inr e ↦ inl (ground arith)
        ]
        | inr k ↦ let (a, at, same) = k in inr (a, Memᴰ.tail at, same)
      ]

user_step :
    (groups seen : List Text) (u : User) (us : List User)
    → validate_users groups seen (u ∷ us) ≡ ok tt
    → (any (text_eq u.username) seen ≡ false)
      × (any (text_eq u.group_id) groups ≡ true)
      × (validate_users groups (u.username ∷ seen) us ≡ ok tt)
unfolding validate_users
user_step groups seen u us h = (ground arith, ground arith, ground arith)

pub validate_users_sound :
    (groups seen : List Text) (us : List User)
    → validate_users groups seen us ≡ ok tt
    → All (λ u. any (text_eq u.group_id) groups ≡ true) us
      × (All (λ y. any (text_eq y) seen ≡ false) (map (λ u. u.username) us)
          × Distinct (map (λ u. u.username) us))
validate_users_sound groups seen [] h = (tt, (tt, tt))
validate_users_sound groups seen (u ∷ us) h =
    let (fresh, known, rest) = user_step groups seen u us h in
    let (knowns, (news, ds)) = validate_users_sound groups (u.username ∷ seen) us rest in
    let (ne, old) =
      split_fresh u.username (λ y. any (text_eq y) seen) (map (λ k. k.username) us) news in
    ((known, knowns), ((fresh, old), (ne, ds)))
