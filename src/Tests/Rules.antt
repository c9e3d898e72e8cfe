-- ===== src/Tests/Rules.antt =====
-- Rules of lib/ruleengine.rs, account numbers and the texts of the enums.
use brdns.Prelude.{ℕ, ◌≡◌, ◌↔◌, refl, Bool, false, none, some, List, [], ◌∷◌}
use brdns.Prelude.Text.{Text, bytes, lower_byte}
use brdns.Model.{Action, TargetType, Rule}
use brdns.Model.Input.{generate_account_number}
use brdns.RuleEngine.{Decision, evaluate}
use brdns.RuleEngine.FirstMatch.{IsDecidedBy, evaluate-some_iff}
use brdns.Tests.Data.{example_com, rule}

abbrev allow_example : Rule
allow_example = rule 1 Action.allow TargetType.domain example_com none

abbrev deny_below : Rule
deny_below = rule 2 Action.deny TargetType.wildcard (bytes "*.com") none

abbrev uncategorized : Text → Bool
uncategorized c = false

evaluate-some_iff_example :
    (evaluate (allow_example ∷ deny_below ∷ []) (bytes "ads.com") uncategorized
      ≡ some Decision.deny)
    ↔ IsDecidedBy (bytes "ads.com") uncategorized (allow_example ∷ deny_below ∷ []) Decision.deny
evaluate-some_iff_example =
    evaluate-some_iff (bytes "ads.com") uncategorized (allow_example ∷ deny_below ∷ [])
      Decision.deny

evaluate_run :
    evaluate (allow_example ∷ deny_below ∷ []) (bytes "ads.com") uncategorized ≡ some Decision.deny
unfolding evaluate lower_byte
evaluate_run = refl

-- Random bytes, two of which are passed over.
abbrev random : List ℕ
random = 255 ∷ 1 ∷ 22 ∷ 3 ∷ 4 ∷ 5 ∷ 250 ∷ 6 ∷ 7 ∷ 8 ∷ 9 ∷ 10 ∷ 11 ∷ 12 ∷ 13 ∷ 14 ∷ 249 ∷ 16 ∷ []

generated : generate_account_number random ≡ some (bytes "1234567890123496")
unfolding generate_account_number
generated = refl
