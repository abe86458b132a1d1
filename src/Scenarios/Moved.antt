-- ===== src/Scenarios/Moved.antt =====
-- The theorems on egress moves, at the sample state and a store that refuses one group.
use trust_panel.Prelude.{◌≡◌, Option, none, some, [], map, if◌then◌else◌, codes, text_eq}
use trust_panel.Model.Node.{Group}
use trust_panel.Model.State.{State, policies_naming_exit}
use trust_panel.Egress.{rules_naming, switch}
use trust_panel.Egress.Moves.{rules_naming-policies_naming_exit, Reported, switch-reports}
use trust_panel.Scenarios.{sample}

abbrev replace_group : State → Group → State
replace_group s g = record s { groups = map (λ h. if text_eq h.id g.id then g else h) s.groups }

-- A store that is its state, and that refuses the group "h".
abbrev write_group : State → Group → Option State
write_group s g = if text_eq g.id (codes "h") then none else some (replace_group s g)

rules_naming-policies_naming_exit_example :
    rules_naming sample (codes "off") ≡ policies_naming_exit sample (codes "off")
rules_naming-policies_naming_exit_example = rules_naming-policies_naming_exit sample (codes "off")

switch-reports_example :
    Reported some write_group []
      (codes "off")
      (switch some write_group [] (codes "off") sample)
      sample
      (some sample)
switch-reports_example = switch-reports some write_group [] (codes "off") sample
