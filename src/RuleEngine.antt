-- ===== src/RuleEngine.antt =====
-- lib/ruleengine.rs: the ordered rules of an account, and the decision of the first that matches.
pub mod Targets
pub mod FirstMatch
use brdns.Prelude.{ℕ, Bool, true, false, ◌||◌, Option, none, some, List, [], ◌∷◌, if◌then◌else◌}
use brdns.Prelude.Int.{ℤ, pos}
use brdns.Prelude.Text.{
  Text, dot, text_eq, is_empty, to_ascii_lowercase, trim_end, trim_star_dot, ends_with,
}
use brdns.Model.{Action, TargetType, Window, Rule, domain, wildcard, category, month}

pub data Decision : Type 0 where
  allow : Decision
  deny : Decision
  limit : ℕ → ℤ → Window → Decision

unfoldable pub normalize : Text → Text
unfolding trim_end to_ascii_lowercase
normalize name = to_ascii_lowercase (trim_end dot name)

unfoldable pub matches_target : Text → TargetType → Text → Bool
unfolding text_eq is_empty ends_with trim_star_dot normalize
matches_target qname domain value = text_eq (normalize qname) (normalize value)
matches_target qname wildcard value =
    let suffix = normalize (trim_star_dot value) in
    let q = normalize qname in
    if is_empty suffix then false else text_eq q suffix || ends_with q (dot ∷ suffix)
matches_target qname category value = false

abbrev or_else {ℓ} : {A : Type ℓ} → Option A → A → A
or_else none d = d
or_else (some a) d = a

-- The answer of a rule that matched. A `limit` rule without its count or window gets 0 and a month.
unfoldable pub decide : Rule → Decision
decide r = elim r.action [
  | Action.allow ↦ allow
  | Action.deny ↦ deny
  | Action.limit ↦ limit r.id (or_else r.limit_count (pos 0)) (or_else r.limit_window month)
]

unfoldable pub matched : Text → (Text → Bool) → Rule → Bool
unfolding matches_target
matched qname in_category r = elim r.target_type [
  | domain ↦ matches_target qname domain r.target_value
  | wildcard ↦ matches_target qname wildcard r.target_value
  | category ↦ in_category r.target_value
]

abbrev pub filter_enabled : List Rule → List Rule
filter_enabled [] = []
filter_enabled (r ∷ rs) = let rest = filter_enabled rs in if r.enabled then r ∷ rest else rest

-- The loop over the enabled rules, which the first match ends.
unfoldable pub first_match : Text → (Text → Bool) → List Rule → Option Decision
unfolding matched decide
first_match qname in_category [] = none
first_match qname in_category (r ∷ rs) =
    let rest = first_match qname in_category rs in
    if matched qname in_category r then some (decide r) else rest

unfoldable pub evaluate : List Rule → Text → (Text → Bool) → Option Decision
unfolding first_match
evaluate rules qname in_category = first_match qname in_category (filter_enabled rules)
