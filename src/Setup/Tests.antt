-- ===== src/Setup/Tests.antt =====
-- The wizard and its policy on concrete input.
use readsync.Base.{Bool, true, false, List, [], ◌∷◌, none, some, ◌≡◌, ◌↔◌, codes, map}
use readsync.Base.Double.{Thousandths, thousandths}
use readsync.Base.Int.{pos}
use readsync.Resolver.Normalize.{ascii}
use readsync.Setup.Wizard.{koreader, unknown_page, Status, new}
use readsync.Setup.Wizard.Pages.{Call, setting, updating, completing, calls, IsSane, calls-IsSane}
use readsync.Setup.Policy.{ConflictPolicy, source_name, validate}
use readsync.Setup.Policy.Valid.{Names, InRange, validate-conditions}

abbrev some_calls : List (Call × Bool)
some_calls =
    (setting unknown_page, false)
    ∷ (updating 4 koreader Status.warn (codes "port in use"), true)
    ∷ (completing 5, false)
    ∷ []

calls-IsSane_example : IsSane (calls some_calls (new 3))
calls-IsSane_example = calls-IsSane 3 some_calls

-- The second name is the first in capitals, with a space.
abbrev twice : ConflictPolicy Thousandths
twice = record {
  precedence = codes "moon" ∷ codes " MOON" ∷ [];
  suspicious_jump_percent = some 30000;
  suspicious_jump_window_minutes = pos 60;
  finished_regression_threshold = pos 85;
}

validate-conditions_example :
    (validate ascii twice ≡ none)
    ↔ (Names (map (source_name ascii) twice.precedence) × InRange twice)
validate-conditions_example = validate-conditions ascii twice
