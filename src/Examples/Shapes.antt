-- ===== src/Examples/Shapes.antt =====
-- A workflow with a child rule.
use fast_rules.Base.{◌≡◌, refl, List, [], ◌∷◌}
use fast_rules.Base.Int.{pos}
use fast_rules.Base.Text.{Text, codes}
use fast_rules.Rule.{Info, nil, cons, Rule}
use fast_rules.Versioning.{new_info}
use fast_rules.Workflow.Shape.{get_all_actions}

abbrev acting : Text → Info
acting action = record (new_info 1) { id = pos 1; action = action }

abbrev family : List Rule
family =
    record { info = acting []; child_rules = cons (acting (codes "log()")) nil nil }
    ∷ record { info = acting (codes "stop()"); child_rules = nil }
    ∷ []

both : get_all_actions family ≡ codes "log()" ∷ codes "stop()" ∷ []
unfolding get_all_actions
both = refl
