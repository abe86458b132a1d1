-- ===== src/Egress.antt =====
-- internal/core/egress/egress.go: who leaves by an exit, and moving groups to another one. The
-- store is a parameter. A label of a log line (Label) is modelled by the exit id that it describes.
pub mod Asked
pub mod Moves
use trust_panel.Prelude.{
  Bool, true, false, not, ◌&&◌, ◌||◌, Option, none, some, List, [], ◌∷◌, any, filter, if◌then◌else◌,
  Text, text_eq, trim_space, is_empty,
}
use trust_panel.Model.Node.{Group}
use trust_panel.Model.Policy.{RoutePolicy, is_exit_action, is_exit_fallback}
use trust_panel.Model.State.{State}

-- Dependents
unfoldable pub dependents : State → Text → List Group
dependents st node_id =
    if is_empty node_id then [] else filter (λ g. text_eq g.default_exit_id node_id) st.groups

-- RulesNaming
unfoldable pub rules_naming : State → Text → List RoutePolicy
rules_naming st node_id =
    if is_empty node_id
    then []
    else filter
        (λ p.
          if p.disabled
          then false
          else (is_exit_action p.action && text_eq p.exit_node_id node_id)
            || (is_exit_action p.others_action && text_eq p.others_exit_id node_id)
            || (is_exit_fallback p.fallback_kind && text_eq p.fallback_exit_id node_id))
        st.route_policies

pub record Move : Type 0 where
  pub group_id : Text
  pub group_name : Text
  pub owner_id : Text
  pub from : Text
  pub to : Text

-- NameOr
unfoldable pub name_or : Text → Text → Text
name_or name id = if is_empty (trim_space name) then id else name

abbrev pub moved_to : Text → Group → Group
moved_to exit_id g = record g { default_exit_id = exit_id }

unfoldable pub move_of : Text → Group → Move
unfolding name_or
move_of exit_id g = record {
  group_id = g.id;
  group_name = name_or g.name g.id;
  owner_id = g.owner_id;
  from = g.default_exit_id;
  to = exit_id;
}

-- The two `continue`s of the loop: a group that is not asked for, or that leaves by the exit already.
unfoldable pub is_chosen : List Text → Text → Group → Bool
is_chosen [] exit_id g = not (text_eq g.default_exit_id exit_id)
is_chosen (i ∷ ids) exit_id g =
    any (text_eq g.id) (i ∷ ids) && not (text_eq g.default_exit_id exit_id)

-- Why a switch stopped.
pub data SwitchError : Type 0 where
  load_failed : SwitchError
  upsert_failed : Text → SwitchError

-- The store after the switch, what it reports as moved, and its error if any.
pub record Switched (S : Type 0) : Type 0 where
  pub store : S
  pub moved : List Move
  pub error : Option SwitchError

abbrev pub report : {S : Type 0} → Move → Switched S → Switched S
report m r = record r { moved = m ∷ r.moved }

module _ {S : Type 0} (load : S → Option State) (upsert : S → Group → Option S) (ids : List Text)
    (exit_id : Text) where
  -- The loop of Switch.
  unfoldable pub switch_loop : S → List Group → Switched S
  switch_loop s [] = record { store = s; moved = []; error = none }
  switch_loop s (g ∷ gs) = elim (is_chosen ids exit_id g) [
    | false ↦ switch_loop s gs
    | true ↦ elim (upsert s (moved_to exit_id g)) [
      | none ↦ record { store = s; moved = []; error = some (upsert_failed g.id) }
      | some after ↦ report (move_of exit_id g) (switch_loop after gs)
    ]
  ]

  -- Switch
  unfoldable pub switch : S → Switched S
  switch s = elim (load s) [
    | none ↦ record { store = s; moved = []; error = some load_failed }
    | some st ↦ switch_loop s st.groups
  ]
