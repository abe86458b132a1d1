-- ===== src/Render/Agreement/Members.antt =====
-- Whom the compiled rules are scoped to: the lists of usernames hold a user's name exactly where
-- the user belongs to the group or the namespace.
use mathlib.Core.List.{Memᴰ}
use trust_panel.Prelude.{
  ◌≡◌, refl, sym, ◌∙◌, Bool, true, ◌||◌, List, [], ◌∷◌, map, any, filter, arith, Text, text_eq,
  text_eq_iff, text_eq_refl, Bool-cases, inl, inr, mem-filter, mem_of_filter, text_lt, All,
}
use trust_panel.Model.Node.{User}
use trust_panel.Render.Config.{non_empty}
use trust_panel.Render.Compiler.{members, owner_members, insert_key, sorted_keys}

name-found :
    (n : Text) (us : List User)
    → any (text_eq n) (map (λ v. v.username) us) ≡ true
    → (v : User) × Memᴰ v us × (v.username ≡ n)
name-found n [] h = absurd (cc h)
name-found n (v ∷ us) h = elim (Bool-cases (text_eq n v.username)) [
  | inl e ↦ (v, Memᴰ.head refl, sym ((text_eq_iff n v.username).0 e))
  | inr e ↦ let (w, m, q) = name-found n us (ground arith) in (w, Memᴰ.tail m, q)
]

found-name :
    (v : User) (us : List User)
    → Memᴰ v us
    → any (text_eq v.username) (map (λ w. w.username) us) ≡ true
found-name v [] m = elim m [ ]
found-name v (w ∷ us) (Memᴰ.head e) = rw (e, text_eq_refl) refl
found-name v (w ∷ us) (Memᴰ.tail m) = ground (arith, found-name v us m)

-- `u` is active, and nobody else has its name.
pub record IsOnly (active : List User) (u : User) : Type 0 where
  pub here : Memᴰ u active
  pub alone : (v : User) → Memᴰ v active → v.username ≡ u.username → v ≡ u

module _ (active : List User) (u : User) (only : IsOnly active u) where
  named_in :
      (q : User → Bool) → any (text_eq u.username) (map (λ v. v.username) (filter q active)) ≡ q u
  named_in q = elim (Bool-cases (q u)) [
    | inl e ↦ found-name u (filter q active) (mem_of_filter q active only.here e) ∙ sym e
    | inr e ↦
        elim (Bool-cases (any (text_eq u.username) (map (λ v. v.username) (filter q active)))) [
          | inl f ↦
              let (v, m, n) = name-found u.username (filter q active) f in
              let (at, holds) = mem-filter q active m in
              let same = only.alone v at n in absurd (cc (e, holds, same))
          | inr f ↦ f ∙ sym e
        ]
  ]

  pub members-named :
      (gid : Text) → any (text_eq u.username) (members active gid) ≡ text_eq u.group_id gid
  unfolding members
  members-named gid = named_in (λ v. text_eq v.group_id gid)

  pub owner_members-named :
      (owner : Text)
      → any (text_eq u.username) (owner_members active owner) ≡ text_eq u.owner_id owner
  unfolding owner_members
  owner_members-named owner = named_in (λ v. text_eq v.owner_id owner)

any-insert_key :
    (k j : Text) (l : List Text)
    → any (text_eq k) (insert_key j l) ≡ (text_eq k j || any (text_eq k) l)
unfolding insert_key
any-insert_key k j [] = refl
any-insert_key k j (i ∷ l) =
    ground (arith, any-insert_key k j l, text_eq_iff j i, text_eq_iff k i, text_eq_iff k j)

pub any-sorted_keys :
    (k : Text) (l : List Text) → any (text_eq k) (sorted_keys l) ≡ any (text_eq k) l
unfolding sorted_keys
any-sorted_keys k [] = refl
any-sorted_keys k (j ∷ l) = any-insert_key k j (sorted_keys l) ∙ ground (arith, any-sorted_keys k l)

module _ (P : Text → Type 0) where
  All-insert_key : (j : Text) (l : List Text) → P j → All P l → All P (insert_key j l)
  unfolding insert_key
  All-insert_key j [] h hs = (h, tt)
  All-insert_key j (i ∷ l) h (k, ks) = elim (Bool-cases (text_eq j i)) [
    | inl e ↦ rw e (k, ks)
    | inr e ↦ elim (Bool-cases (text_lt j i)) [
      | inl f ↦ rw (e, f) (h, (k, ks))
      | inr f ↦ rw (e, f) (k, All-insert_key j l h ks)
    ]
  ]

  All-sorted_keys : (l : List Text) → All P l → All P (sorted_keys l)
  unfolding sorted_keys
  All-sorted_keys [] h = tt
  All-sorted_keys (j ∷ l) (h, hs) = All-insert_key j (sorted_keys l) h (All-sorted_keys l hs)

-- A group that has a default route has an active member.
abbrev pub HasMembers : List User → Text → Type 0
HasMembers active gid = non_empty (members active gid) ≡ true

members-found : (active : List User) (v : User) → Memᴰ v active → HasMembers active v.group_id
unfolding members
members-found [] v m = elim m [ ]
members-found (w ∷ us) v (Memᴰ.head e) = rw (e, text_eq_refl) refl
members-found (w ∷ us) v (Memᴰ.tail m) = ground (arith, members-found us v m)

groups-found :
    (active us : List User)
    → ((v : User) → Memᴰ v us → Memᴰ v active)
    → All (HasMembers active) (map (λ v. v.group_id) us)
groups-found active [] sub = tt
groups-found active (v ∷ us) sub = (
  members-found active v (sub v (Memᴰ.head refl)),
  groups-found active us (λ w m. sub w (Memᴰ.tail m)),
)

pub keys-HasMembers :
    (active : List User) → All (HasMembers active) (sorted_keys (map (λ v. v.group_id) active))
keys-HasMembers active =
    All-sorted_keys (HasMembers active) (map (λ v. v.group_id) active)
      (groups-found active active (λ v m. m))

any-group :
    (u : User) (us : List User)
    → Memᴰ u us
    → any (text_eq u.group_id) (map (λ v. v.group_id) us) ≡ true
any-group u [] m = elim m [ ]
any-group u (w ∷ us) (Memᴰ.head e) = rw (e, text_eq_refl) refl
any-group u (w ∷ us) (Memᴰ.tail m) = ground (arith, any-group u us m)

-- The group of an active user has a default route.
pub group-keyed :
    (u : User) (active : List User)
    → Memᴰ u active
    → any (text_eq u.group_id) (sorted_keys (map (λ v. v.group_id) active)) ≡ true
group-keyed u active m = any-sorted_keys u.group_id _ ∙ any-group u active m
