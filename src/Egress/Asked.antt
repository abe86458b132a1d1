-- ===== src/Egress/Asked.antt =====
-- Which groups a switch is asked to move, and what is told of a move, apart from the code.
use mathlib.Core.List.{Memᴰ}
use trust_panel.Prelude.{
  ◌≡◌, ◌≢◌, refl, ◌⊎◌, inl, inr, true, false, List, [], ◌∷◌, any, if◌then◌else◌, Bool-cases, Text,
  text_eq, text_eq_iff, trim_space, is_empty, arith,
}
use trust_panel.Model.Node.{Group}
use trust_panel.Egress.{Move, name_or, move_of, is_chosen}

-- A list of ids stands for the groups in it, and the empty list for all groups.
abbrev pub Names : List Text → Group → Type 0
Names [] g = Unit
Names (i ∷ ids) g = Memᴰ g.id (i ∷ ids)

-- The groups that are to be moved out of a list, one by one: each is named and leaves by another
-- exit than the new one, and those left out are not named or leave by it already.
pub data Selects (ids : List Text) (exit_id : Text) : List Group → List Group → Type 0 where
  none_left : Selects ids exit_id [] []
  moved_out :
      {g : Group} {gs to_move : List Group}
      → Names ids g
      → g.default_exit_id ≢ exit_id
      → Selects ids exit_id gs to_move
      → Selects ids exit_id (g ∷ gs) (g ∷ to_move)
  stays :
      {g : Group} {gs to_move : List Group}
      → ¬ Names ids g ⊎ (g.default_exit_id ≡ exit_id)
      → Selects ids exit_id gs to_move
      → Selects ids exit_id (g ∷ gs) to_move

-- What is told of a group that is moved: who it is, under its name, or its id where that is blank,
-- and from which exit to which.
abbrev pub told : Text → Group → Move
told exit_id g = record {
  group_id = g.id;
  group_name = if is_empty (trim_space g.name) then g.id else g.name;
  owner_id = g.owner_id;
  from = g.default_exit_id;
  to = exit_id;
}

pub move_of-told : (exit_id : Text) (g : Group) → move_of exit_id g ≡ told exit_id g
unfolding move_of name_or
move_of-told exit_id g = refl

any-Mem : (x : Text) (ids : List Text) → any (text_eq x) ids ≡ true → Memᴰ x ids
any-Mem x [] h = cc h
any-Mem x (i ∷ ids) h = elim (Bool-cases (text_eq x i)) [
  | inl e ↦ Memᴰ.head ((text_eq_iff x i).0 e)
  | inr e ↦ Memᴰ.tail (any-Mem x ids (ground (arith, h, e)))
]

any-not-Mem : (x : Text) (ids : List Text) → any (text_eq x) ids ≡ false → ¬ Memᴰ x ids
any-not-Mem x [] h m = elim m [ ]
any-not-Mem x (i ∷ ids) h (Memᴰ.head e) = cc (h, (text_eq_iff x i).1 e)
any-not-Mem x (i ∷ ids) h (Memᴰ.tail m) = any-not-Mem x ids (ground (arith, h)) m

pub chosen-Names :
    (ids : List Text) (exit_id : Text) (g : Group) → is_chosen ids exit_id g ≡ true → Names ids g
unfolding is_chosen
chosen-Names [] exit_id g e = tt
chosen-Names (i ∷ ids) exit_id g e = any-Mem g.id (i ∷ ids) (ground (arith, e))

pub chosen-elsewhere :
    (ids : List Text) (exit_id : Text) (g : Group)
    → is_chosen ids exit_id g ≡ true
    → g.default_exit_id ≢ exit_id
unfolding is_chosen
chosen-elsewhere [] exit_id g e h = ground (arith, e, (text_eq_iff g.default_exit_id exit_id).1 h)
chosen-elsewhere (i ∷ ids) exit_id g e h =
    ground (arith, e, (text_eq_iff g.default_exit_id exit_id).1 h)

pub not_chosen :
    (ids : List Text) (exit_id : Text) (g : Group)
    → is_chosen ids exit_id g ≡ false
    → (¬ Names ids g) ⊎ (g.default_exit_id ≡ exit_id)
unfolding is_chosen
not_chosen ids exit_id g e = elim (Bool-cases (text_eq g.default_exit_id exit_id)) [
  | inl same ↦ inr ((text_eq_iff g.default_exit_id exit_id).0 same)
  | inr other ↦ inl (unnamed ids e other)
]
  where
    unnamed :
        (is : List Text)
        → is_chosen is exit_id g ≡ false
        → text_eq g.default_exit_id exit_id ≡ false
        → ¬ Names is g
    unnamed [] e other n = ground (arith, e, other)
    unnamed (i ∷ is) e other n = any-not-Mem g.id (i ∷ is) (ground (arith, e, other)) n
