-- ===== src/ControlPlane/Postgres/Stored.antt =====
-- The rows that new rules are stored as, and how they are read.
use brdns.Prelude.{
  ℕ, ◌+◌, ◌%◌, ◌^◌, ◌<◌, ◌≤◌, ◌≡◌, refl, Bool, true, false, not, ◌&&◌, ◌||◌, none, some, List, [],
  ◌∷◌, arith, All, length, Option, le→leb,
}
use brdns.Prelude.Text.{bytes, text_eq}
use brdns.Prelude.Select.{filter, sort_by, sort_by_sorted, filter_all, AtMostAll, IsSorted}
use brdns.Model.{Rule, NewRule, Action, TargetType, Window}
use brdns.Model.Enums.{
  action_str, target_type_str, window_str, parse_window, parse_action_iff, parse_target_type_iff,
  parse_window_iff,
}
use brdns.ControlPlane.{done}
use brdns.ControlPlane.InMem.{number_rules, next_id}
use brdns.ControlPlane.Sql.{RuleRow}
use brdns.ControlPlane.Sql.Rules.{rule_checks, one_of, by_position, rule_of, signed}
use brdns.ControlPlane.Postgres.{rule_row, rule_at, window_text, is_some}
use brdns.ControlPlane.Postgres.Rows.{rule_from_row, optional_window, each_row}

-- What the constraints ask of a rule: a `limit` has a budget and a window.
abbrev is_limit : Action → Bool
is_limit Action.limit = true
is_limit Action.allow = false
is_limit Action.deny = false

abbrev pub is_storable : NewRule → Bool
is_storable new = not (is_limit new.action) || (is_some new.limit_count && is_some new.limit_window)

-- The rows and the rules of a list, numbered from behind `id`.
abbrev pub rows_of : ℕ → ℕ → ℕ → List NewRule → List RuleRow
rows_of account_id position id [] = []
rows_of account_id position id (new ∷ news) =
    rule_row account_id position new (id + 1) ∷ rows_of account_id (position + 1) (id + 1) news

abbrev pub rules_of : ℕ → ℕ → ℕ → List NewRule → List Rule
rules_of account_id position id [] = []
rules_of account_id position id (new ∷ news) =
    rule_at account_id position new (id + 1) ∷ rules_of account_id (position + 1) (id + 1) news

action_checks :
    (a : Action) → one_of (bytes "allow" ∷ bytes "deny" ∷ bytes "limit" ∷ []) (action_str a) ≡ true
unfolding one_of action_str text_eq
action_checks Action.allow = refl
action_checks Action.deny = refl
action_checks Action.limit = refl

target_type_checks :
    (t : TargetType)
    → one_of (bytes "domain" ∷ bytes "wildcard" ∷ bytes "category" ∷ []) (target_type_str t) ≡ true
unfolding one_of target_type_str text_eq
target_type_checks TargetType.domain = refl
target_type_checks TargetType.wildcard = refl
target_type_checks TargetType.category = refl

window_checks :
    (w : Window)
    → one_of (bytes "hour" ∷ bytes "day" ∷ bytes "week" ∷ bytes "month" ∷ []) (window_str w) ≡ true
unfolding one_of window_str text_eq
window_checks Window.hour = refl
window_checks Window.day = refl
window_checks Window.week = refl
window_checks Window.month = refl

text_eq-action_str : (a : Action) → text_eq (action_str a) (bytes "limit") ≡ is_limit a
unfolding action_str text_eq
text_eq-action_str Action.allow = refl
text_eq-action_str Action.deny = refl
text_eq-action_str Action.limit = refl

with_window :
    (new : NewRule) (w : Option Window)
    → new.limit_window ≡ w
    → (account_id position id : ℕ)
    → rule_checks (rule_row account_id position new id) ≡ is_storable new
unfolding rule_checks
with_window new none e account_id position id =
    rw (
      e,
      action_checks new.action,
      target_type_checks new.target_type,
      text_eq-action_str new.action,
    )
with_window new (some w) e account_id position id = rw (
  e,
  action_checks new.action,
  target_type_checks new.target_type,
  window_checks w,
  text_eq-action_str new.action,
)

pub rule_checks-rule_row :
    (account_id position : ℕ) (new : NewRule) (id : ℕ)
    → rule_checks (rule_row account_id position new id) ≡ is_storable new
rule_checks-rule_row account_id position new id =
    with_window new new.limit_window refl account_id position id

optional_window-window_text : (w : Option Window) → optional_window (window_text w) ≡ some w
optional_window-window_text none = refl
optional_window-window_text (some w) =
    let e : parse_window (window_str w) ≡ some w = (parse_window_iff (window_str w) w).1 refl in
    rw (e, optional_window)

-- A stored rule is read as it was answered.
pub rule_from_row-rule_row :
    (account_id position : ℕ) (new : NewRule) (id : ℕ)
    → rule_from_row (rule_row account_id position new id)
      ≡ done (rule_at account_id position new id)
unfolding rule_from_row
rule_from_row-rule_row account_id position new id = rw (
  (parse_action_iff (action_str new.action) new.action).1 refl,
  (parse_target_type_iff (target_type_str new.target_type) new.target_type).1 refl,
  optional_window-window_text new.limit_window,
  rule_from_row,
)

pub each_row-rows_of :
    (account_id position id : ℕ) (news : List NewRule)
    → each_row rule_from_row (rows_of account_id position id news)
      ≡ done (rules_of account_id position id news)
unfolding each_row
each_row-rows_of account_id position id [] = refl
each_row-rows_of account_id position id (new ∷ news) = rw (
  rule_from_row-rule_row account_id position new (id + 1),
  each_row-rows_of account_id (position + 1) (id + 1) news,
  each_row,
)

-- The control plane in memory numbers the rules likewise.
pub rules_of-number_rules :
    (account_id position id : ℕ) (news : List NewRule)
    → id + length news < 2 ^ 63
    → (number_rules account_id position id news).0 ≡ rules_of account_id position id news
unfolding number_rules
rules_of-number_rules account_id position id [] h = refl
rules_of-number_rules account_id position id (new ∷ news) h =
    let e : next_id id ≡ id + 1 = omega (arith, h) in
    rw (e, rules_of-number_rules account_id (position + 1) (id + 1) news (omega (arith, h)))

pub rows_of-All :
    (account_id position id : ℕ) (news : List NewRule)
    → All (λ row. rule_of account_id row ≡ true) (rows_of account_id position id news)
rows_of-All account_id position id [] = tt
rows_of-All account_id position id (new ∷ news) =
    (ground arith, rows_of-All account_id (position + 1) (id + 1) news)

signed_le : (p q : ℕ) → p ≤ q → q < 2 ^ 31 → signed (p % 2 ^ 32) ≤ signed (q % 2 ^ 32)
signed_le p q h k = omega (arith, h, k)

at_most_all :
    (account_id p position id : ℕ) (row : RuleRow) (news : List NewRule)
    → row.position ≡ p % 2 ^ 32
    → p ≤ position
    → position + length news ≤ 2 ^ 31
    → AtMostAll by_position row (rows_of account_id position id news)
at_most_all account_id p position id row [] e h k = tt
at_most_all account_id p position id row (new ∷ news) e h k = (
  rw e (le→leb _ _ (signed_le p position h (omega (arith, k)))),
  at_most_all account_id p (position + 1) (id + 1) row news e (omega (arith, h)) (omega (arith, k)),
)

rows_of-IsSorted :
    (account_id position id : ℕ) (news : List NewRule)
    → position + length news ≤ 2 ^ 31
    → IsSorted by_position (rows_of account_id position id news)
rows_of-IsSorted account_id position id [] h = tt
rows_of-IsSorted account_id position id (new ∷ news) h = (
  at_most_all account_id position (position + 1) (id + 1)
      (rule_row account_id position new (id + 1)) news refl (omega arith) (omega (arith, h)),
  rows_of-IsSorted account_id (position + 1) (id + 1) news (omega (arith, h)),
)

-- The new rows come back in their order.
pub sort_by-rows_of :
    (account_id id : ℕ) (news : List NewRule)
    → length news ≤ 2 ^ 31
    → sort_by by_position (filter (rule_of account_id) (rows_of account_id 0 id news))
      ≡ rows_of account_id 0 id news
sort_by-rows_of account_id id news h =
    rw
      (filter_all (rule_of account_id) (rows_of account_id 0 id news)
        (rows_of-All account_id 0 id news))
      (sort_by_sorted by_position (rows_of account_id 0 id news)
        (rows_of-IsSorted account_id 0 id news (omega (arith, h))))
