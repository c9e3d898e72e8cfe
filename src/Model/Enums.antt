-- ===== src/Model/Enums.antt =====
-- lib/model/enums.rs: the texts that the enums are stored and sent as.
use brdns.Prelude.{◌≡◌, ◌↔◌, Option, none, some, List, ◌∷◌, [], arith, if◌then◌else◌}
use brdns.Prelude.Text.{Text, bytes, text_eq, text_eq_iff}
use brdns.Model.{Action, TargetType, Window, UpstreamProtocol}

-- The arms of a `match` on a text, each with its value.
abbrev table_find {ℓ} : {A : Type ℓ} → List (Text × A) → Text → Option A
table_find [] s = none
table_find ((t, a) ∷ rest) s =
    let other = table_find rest s in if text_eq s t then some a else other

unfoldable pub action_str : Action → Text
action_str Action.allow = bytes "allow"
action_str Action.deny = bytes "deny"
action_str Action.limit = bytes "limit"

unfoldable pub parse_action : Text → Option Action
unfolding text_eq
parse_action s =
    table_find
      ((bytes "allow", Action.allow)
        ∷ (bytes "deny", Action.deny)
        ∷ (bytes "limit", Action.limit)
        ∷ [])
      s

unfoldable pub target_type_str : TargetType → Text
target_type_str TargetType.domain = bytes "domain"
target_type_str TargetType.wildcard = bytes "wildcard"
target_type_str TargetType.category = bytes "category"

unfoldable pub parse_target_type : Text → Option TargetType
unfolding text_eq
parse_target_type s =
    table_find
      ((bytes "domain", TargetType.domain)
        ∷ (bytes "wildcard", TargetType.wildcard)
        ∷ (bytes "category", TargetType.category)
        ∷ [])
      s

unfoldable pub window_str : Window → Text
window_str Window.hour = bytes "hour"
window_str Window.day = bytes "day"
window_str Window.week = bytes "week"
window_str Window.month = bytes "month"

unfoldable pub parse_window : Text → Option Window
unfolding text_eq
parse_window s =
    table_find
      ((bytes "hour", Window.hour)
        ∷ (bytes "day", Window.day)
        ∷ (bytes "week", Window.week)
        ∷ (bytes "month", Window.month)
        ∷ [])
      s

unfoldable pub protocol_str : UpstreamProtocol → Text
protocol_str UpstreamProtocol.dot = bytes "dot"
protocol_str UpstreamProtocol.doh = bytes "doh"
protocol_str UpstreamProtocol.udp = bytes "udp"

unfoldable pub parse_protocol : Text → Option UpstreamProtocol
unfolding text_eq
parse_protocol s =
    table_find
      ((bytes "dot", UpstreamProtocol.dot)
        ∷ (bytes "doh", UpstreamProtocol.doh)
        ∷ (bytes "udp", UpstreamProtocol.udp)
        ∷ [])
      s

-- A text is read as a value exactly where it is the text that the value is written as.
pub parse_action_iff : (s : Text) (x : Action) → (parse_action s ≡ some x) ↔ (s ≡ action_str x)
unfolding parse_action action_str
parse_action_iff s Action.allow = ground (
  arith,
  text_eq_iff s (bytes "allow"),
  text_eq_iff s (bytes "deny"),
  text_eq_iff s (bytes "limit"),
)
parse_action_iff s Action.deny = ground (
  arith,
  text_eq_iff s (bytes "allow"),
  text_eq_iff s (bytes "deny"),
  text_eq_iff s (bytes "limit"),
)
parse_action_iff s Action.limit = ground (
  arith,
  text_eq_iff s (bytes "allow"),
  text_eq_iff s (bytes "deny"),
  text_eq_iff s (bytes "limit"),
)

-- A text is read as a value exactly where it is the text that the value is written as.
pub parse_target_type_iff :
    (s : Text) (x : TargetType) → (parse_target_type s ≡ some x) ↔ (s ≡ target_type_str x)
unfolding parse_target_type target_type_str
parse_target_type_iff s TargetType.domain = ground (
  arith,
  text_eq_iff s (bytes "domain"),
  text_eq_iff s (bytes "wildcard"),
  text_eq_iff s (bytes "category"),
)
parse_target_type_iff s TargetType.wildcard = ground (
  arith,
  text_eq_iff s (bytes "domain"),
  text_eq_iff s (bytes "wildcard"),
  text_eq_iff s (bytes "category"),
)
parse_target_type_iff s TargetType.category = ground (
  arith,
  text_eq_iff s (bytes "domain"),
  text_eq_iff s (bytes "wildcard"),
  text_eq_iff s (bytes "category"),
)

-- A text is read as a value exactly where it is the text that the value is written as.
pub parse_window_iff : (s : Text) (x : Window) → (parse_window s ≡ some x) ↔ (s ≡ window_str x)
unfolding parse_window window_str
parse_window_iff s Window.hour = ground (
  arith,
  text_eq_iff s (bytes "hour"),
  text_eq_iff s (bytes "day"),
  text_eq_iff s (bytes "week"),
  text_eq_iff s (bytes "month"),
)
parse_window_iff s Window.day = ground (
  arith,
  text_eq_iff s (bytes "hour"),
  text_eq_iff s (bytes "day"),
  text_eq_iff s (bytes "week"),
  text_eq_iff s (bytes "month"),
)
parse_window_iff s Window.week = ground (
  arith,
  text_eq_iff s (bytes "hour"),
  text_eq_iff s (bytes "day"),
  text_eq_iff s (bytes "week"),
  text_eq_iff s (bytes "month"),
)
parse_window_iff s Window.month = ground (
  arith,
  text_eq_iff s (bytes "hour"),
  text_eq_iff s (bytes "day"),
  text_eq_iff s (bytes "week"),
  text_eq_iff s (bytes "month"),
)

-- A text is read as a value exactly where it is the text that the value is written as.
pub parse_protocol_iff :
    (s : Text) (x : UpstreamProtocol) → (parse_protocol s ≡ some x) ↔ (s ≡ protocol_str x)
unfolding parse_protocol protocol_str
parse_protocol_iff s UpstreamProtocol.dot =
    ground
      (arith, text_eq_iff s (bytes "dot"), text_eq_iff s (bytes "doh"), text_eq_iff s (bytes "udp"))
parse_protocol_iff s UpstreamProtocol.doh =
    ground
      (arith, text_eq_iff s (bytes "dot"), text_eq_iff s (bytes "doh"), text_eq_iff s (bytes "udp"))
parse_protocol_iff s UpstreamProtocol.udp =
    ground
      (arith, text_eq_iff s (bytes "dot"), text_eq_iff s (bytes "doh"), text_eq_iff s (bytes "udp"))
