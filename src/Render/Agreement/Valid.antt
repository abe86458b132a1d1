-- ===== src/Render/Agreement/Valid.antt =====
-- What a state that Validate accepts gives to the comparison of tester and node.
use mathlib.Core.List.{Memᴰ}
use trust_panel.Prelude.{
  ◌≡◌, refl, sym, ◌∙◌, ap, ◌≢◌, Bool, true, false, ◌||◌, none, some, List, [], ◌∷◌, map, arith, All,
  All-mem, Text, text_eq, text_eq_iff, Bool-cases, inl, inr,
}
use trust_panel.Prelude.Result.{ok}
use trust_panel.Model.Node.{Node, Group, User, Instant}
use trust_panel.Model.Policy.{
  RoutePolicy, RouteCondition, MatchNode, match_tree, policy_match, has_match, action_valid,
  is_unset_action,
}
use trust_panel.Model.Policy.Validate.{policy_validate, others_validate}
use trust_panel.Model.Policy.Reading.{match_tree-reads}
use trust_panel.Model.State.{State, validate_policy, validate, active_users}
use trust_panel.Model.State.References.{Distinct}
use trust_panel.Model.State.Sound.{validate-IsSound, validate_parts}
use trust_panel.Model.State.Users.{active_users_correct}
use trust_panel.Render.Netip.{Netip}
use trust_panel.Render.Compiler.{last_group}
use trust_panel.Render.Simulator.{first_group}
use trust_panel.Render.SingBox.{SingBox}
use trust_panel.Render.Agreement.Nodes.{IsUsable}
use trust_panel.Render.Agreement.Members.{IsOnly}
use trust_panel.Render.Agreement.Policies.{Fits}

mem-names : (us : List User) (v : User) → Memᴰ v us → Memᴰ v.username (map (λ u. u.username) us)
mem-names [] v m = elim m [ ]
mem-names (w ∷ us) v (Memᴰ.head e) = Memᴰ.head (ap (λ (x : User). x.username) e)
mem-names (w ∷ us) v (Memᴰ.tail m) = Memᴰ.tail (mem-names us v m)

not_again :
    (w : User) (us : List User) (v : User)
    → All (λ y. w.username ≢ y) (map (λ u. u.username) us)
    → Memᴰ v us
    → w.username ≢ v.username
not_again w us v h m = All-mem (λ y. w.username ≢ y) (map (λ u. u.username) us) h (mem-names us v m)

one_of_name :
    (us : List User)
    → Distinct (map (λ u. u.username) us)
    → (u v : User) → Memᴰ u us
    → Memᴰ v us
    → v.username ≡ u.username
    → v ≡ u
one_of_name [] d u v m n e = elim m [ ]
one_of_name (w ∷ us) (h, d) u v (Memᴰ.head p) (Memᴰ.head q) e = q ∙ sym p
one_of_name (w ∷ us) (h, d) u v (Memᴰ.head p) (Memᴰ.tail n) e =
    absurd (not_again w us v h n (cc (p, e)))
one_of_name (w ∷ us) (h, d) u v (Memᴰ.tail m) (Memᴰ.head q) e =
    absurd (not_again w us u h m (cc (q, e)))
one_of_name (w ∷ us) (h, d) u v (Memᴰ.tail m) (Memᴰ.tail n) e = one_of_name us d u v m n e

-- Among active users, who have names of their own in an accepted state, a user is the only one.
pub active-IsOnly :
    (parses : Text → Bool) (s : State) (at : Instant) (u : User)
    → validate parses s ≡ ok tt
    → Memᴰ u (active_users s at)
    → IsOnly (active_users s at) u
active-IsOnly parses s at u ok_state m =
    let listed = (active_users_correct s at).1 in
    record {
      here = m;
      alone = λ v n e.
          one_of_name s.users (validate-IsSound parses s ok_state).usernames u v ((listed u).0 m).0
            ((listed v).0 n).0 e;
    }

last_group-none :
    (gs : List Group) (id : Text) → All (λ y. id ≢ y) (map (λ g. g.id) gs) → last_group gs id ≡ none
unfolding last_group
last_group-none [] id h = refl
last_group-none (g ∷ gs) id (h, hs) =
    ground (arith, last_group-none gs id hs, text_eq_iff g.id id, h)

last-first :
    (gs : List Group) (id : Text)
    → Distinct (map (λ g. g.id) gs)
    → last_group gs id ≡ first_group gs id
unfolding last_group first_group
last-first [] id d = refl
last-first (g ∷ gs) id (h, d) = elim (Bool-cases (text_eq g.id id)) [
  | inl e ↦
      let same = (text_eq_iff g.id id).0 e in ground (arith, last_group-none gs id (rw same at h))
  | inr e ↦ ground (arith, last-first gs id d)
]

tree_of_match :
    (cs : List RouteCondition)
    → elim cs [ [] ↦ false | _ ∷ _ ↦ true ] ≡ true
    → (t : MatchNode) × (match_tree cs ≡ some t)
tree_of_match [] h = cc
tree_of_match (c ∷ cs) h = let (t, made, _) = match_tree-reads (λ _. true) c cs in (t, made)

-- A rule that Validate accepts has a match and known actions.
accepted :
    (parses : Text → Bool) (nodes : List Node) (groups : List Text) (p : RoutePolicy)
    → validate_policy parses nodes groups p ≡ ok tt
    → (has_match p ≡ true)
      × (action_valid p.action ≡ true)
      × ((is_unset_action p.others_action || action_valid p.others_action) ≡ true)
unfolding validate_policy policy_validate others_validate
accepted parses nodes groups p h = (ground arith, ground arith, ground arith)

-- Every condition of an enabled rule has a value left when it is cleaned as the node is given it.
abbrev pub HasUsableRules : Netip → SingBox → State → Type 0
HasUsableRules net c s =
    (p : RoutePolicy)
    → Memᴰ p s.route_policies
    → p.disabled ≡ false
    → (t : MatchNode) → match_tree (policy_match p) ≡ some t
    → IsUsable c net t

pub rules-Fit :
    (net : Netip) (c : SingBox) (parses : Text → Bool) (s : State)
    → validate parses s ≡ ok tt
    → HasUsableRules net c s
    → (p : RoutePolicy) → Memᴰ p s.route_policies
    → p.disabled ≡ false
    → Fits net c p
rules-Fit net c parses s ok_state usable p m on =
    let (nodes, groups, _, _, _, ruled) = validate_parts parses s ok_state in
    let (matched, action, others) =
      accepted parses nodes groups p
        (All-mem (λ q. validate_policy parses nodes groups q ≡ ok tt) s.route_policies ruled m) in
    let (t, made) = tree_of_match (policy_match p) matched in
    (t, made, usable p m on t made, action, others)

pub validate-OneGroup :
    (parses : Text → Bool) (s : State) (gid : Text)
    → validate parses s ≡ ok tt
    → last_group s.groups gid ≡ first_group s.groups gid
validate-OneGroup parses s gid ok_state =
    last-first s.groups gid (validate-IsSound parses s ok_state).group_ids
