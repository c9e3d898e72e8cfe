-- ===== src/Http.antt =====
-- lib/controlplane/http: the handlers of the management API over the control plane in memory. A
-- reply is a status with what the body is made of; the texts of errors and the JSON are left out.
pub mod Reachable
pub mod Auth
pub mod Guard
use brdns.Prelude.{
  ℕ, Bool, true, false, ◌&&◌, ◌||◌, not, Option, none, some, List, [], ◌∷◌, leb, ltb, if◌then◌else◌,
  length,
}
use brdns.Prelude.Int.{ℤ, pos, negsuc}
use brdns.Prelude.Text.{Text, is_empty, text_eq, bytes, strip_prefix}
use brdns.Model.{Account, Rule, Upstream, NewRule, NewUpstream}
use brdns.Model.Input.{is_valid_account_number, generate_account_number}
use brdns.ControlPlane.InMem as InMem

pub data Status : Type 0 where
  ok created bad_request unauthorized not_found : Status

pub data Reply {ℓ} (A : Type ℓ) : Type ℓ where
  reply : Status → A → Reply A
  refused : Status → Reply A

-- `random` is what the generator of account numbers draws from.
unfoldable pub account_number_for : List ℕ → Text → Option Text
unfolding is_empty
account_number_for random body = if is_empty body then generate_account_number random else some body

unfoldable pub create_account_number : Text → InMem.Inner → Reply Account × InMem.Inner
unfolding is_valid_account_number
create_account_number number inner =
    if not (is_valid_account_number number)
    then (refused bad_request, inner)
    else let (account, next) = InMem.create_account number inner in (reply created account, next)

-- `none` where the generator runs out of random bytes.
unfoldable pub create_account : List ℕ → Text → InMem.Inner → Option (Reply Account × InMem.Inner)
unfolding account_number_for create_account_number
create_account random body inner = elim (account_number_for random body) [
  | none ↦ none
  | some number ↦ some (create_account_number number inner)
]

unfoldable pub get_account : Text → InMem.Inner → Reply Account
get_account number inner = elim (InMem.get_account number inner) [
  | none ↦ refused not_found
  | some account ↦ reply ok account
]

abbrev is_negative : Option ℤ → Bool
is_negative none = false
is_negative (some (pos n)) = false
is_negative (some (negsuc n)) = true

unfoldable pub any_invalid : List NewRule → Bool
unfolding is_empty
any_invalid [] = false
any_invalid (r ∷ rs) =
    (is_empty r.target_value || (ltb 253 (length r.target_value) || is_negative r.limit_count))
    || any_invalid rs

unfoldable pub list_rules : Text → InMem.Inner → Reply (List Rule)
list_rules number inner = reply ok (InMem.rules number inner)

unfoldable pub replace_rules : Text → List NewRule → InMem.Inner → Reply (List Rule) × InMem.Inner
unfolding any_invalid
replace_rules number body inner =
    if any_invalid body
    then (refused bad_request, inner)
    else let (stored, next) = InMem.replace_rules number body inner in (reply ok stored, next)

unfoldable pub list_upstreams : Text → InMem.Inner → Reply (List Upstream)
list_upstreams number inner = reply ok (InMem.list_upstreams number inner)

unfoldable pub replace_upstreams :
    Text → List NewUpstream → InMem.Inner → Reply (List Upstream) × InMem.Inner
replace_upstreams number body inner =
    let (stored, next) = InMem.replace_upstreams number body inner in (reply ok stored, next)

unfoldable pub list_presets : InMem.Inner → Reply (List Upstream)
list_presets inner = reply ok (InMem.preset_upstreams inner)
