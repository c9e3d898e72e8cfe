-- ===== src/Tests/Control.antt =====
-- The control plane of lib/controlplane, the policy cache of lib/policy.rs, the pool of
-- lib/upstream.rs and the management API.
use brdns.Prelude.{ℕ, ◌+◌, get_elem?, ◌-◌, ◌≡◌, ◌↔◌, refl, none, some, List, [], ◌∷◌, ◌++◌, arith}
use Prim.Native.Nat.{min}
use brdns.Prelude.Int.{pos}
use brdns.Prelude.Text.{Text, bytes, dot}
use brdns.Prelude.Maps.{lookup, text_Eq}
use brdns.Model.{Upstream, Action, TargetType, NewRule}
use brdns.ControlPlane.InMem.{
  Inner, default, create_account, get_or_create, replace_rules, get_account, rules, active_upstream,
  count_at, list_upstreams,
}
use brdns.ControlPlane.InMem.Accounts.{HasAccounts, default-HasAccounts, replace_rules-HasAccounts}
use brdns.ControlPlane.InMem.Numbering.{stored_at, replace_rules-stored_rule}
use brdns.ControlPlane.InMem.QuotaCount.{Call, granted, asked, granted_lem}
use brdns.ControlPlane.Service.{in_mem}
use brdns.Policy.{new_cache, refresh, cached_policy}
use brdns.Policy.Refresh.{cached_policy-refresh-in_mem}
use brdns.Upstream.{Transport, UpstreamPool, new_pool, get_transport}
use brdns.Upstream.Sharing.{new_pool-IsPool, get_transport_same_iff}
use brdns.Identity.{trim_dots, account_from_sni}
use brdns.Http.{create_account_number}
use brdns.Http.Reachable.{create_account-account_from_sni}
use brdns.Tests.Data.{example_com, new_rule, upstream}
use brdns.Tests.Clock.{clock}

abbrev number : Text
number = bytes "1234"

abbrev blocked : List NewRule
blocked = new_rule Action.deny TargetType.domain example_com ∷ []

abbrev filled : Inner
filled = (replace_rules number blocked default).1

filled-HasAccounts : HasAccounts filled
filled-HasAccounts = replace_rules-HasAccounts number blocked default default-HasAccounts

replace_rules-stored_rule_example :
    let (answer, next) = replace_rules number blocked default in
    ((i : ℕ)
      → get_elem? (rules number next) i
        ≡ stored_at (0 + i + 1) (get_or_create number default).0.id i (get_elem? blocked i))
    × (answer ≡ rules number next)
    × (list_upstreams number next ≡ list_upstreams number default)
    × (lookup (bytes "5678") next.accounts ≡ lookup (bytes "5678") default.accounts)
unfolding default
replace_rules-stored_rule_example =
    replace_rules-stored_rule number (bytes "5678") blocked default (λ h. cc h) (omega arith)
      (omega arith)

abbrev calls : List Call
calls =
    record { key = (1, pos 0); limit = pos 2 }
    ∷ record { key = (9, pos 0); limit = pos 5 }
    ∷ record { key = (1, pos 0); limit = pos 2 }
    ∷ record { key = (1, pos 0); limit = pos 2 }
    ∷ []

granted_lem_example :
    granted (1, pos 0) calls default
    ≡ min (asked (1, pos 0) calls) (2 - count_at (1, pos 0) default)
granted_lem_example = granted_lem (1, pos 0) 2 calls default (ground arith)

cached_policy-refresh-in_mem_example :
    cached_policy number (refresh (in_mem ⦃c = clock⦄ (pos 0)) filled new_cache).1
    ≡ elim (get_account number filled) [
      | none ↦ none
      | some _ ↦
          some (record { rules = rules number filled; upstream = active_upstream number filled })
    ]
cached_policy-refresh-in_mem_example =
    cached_policy-refresh-in_mem ⦃c = clock⦄ (pos 0) number filled new_cache filled-HasAccounts

abbrev pool : UpstreamPool
pool = new_pool (Transport.udp (bytes "8.8.8.8") 53)

-- The same upstream on another port.
abbrev near : Upstream
near = upstream (bytes "1.1.1.1")

abbrev far : Upstream
far = record near { port = 854 }

get_transport_same_iff_example :
    ((get_transport near pool).0 ≡ (get_transport far (get_transport near pool).1).0) ↔ (
      (near.protocol ≡ far.protocol)
      × (near.host ≡ far.host)
      × (near.port ≡ 854)
      × (near.addr ≡ far.addr))
get_transport_same_iff_example =
    get_transport_same_iff near far pool (new_pool-IsPool (Transport.udp (bytes "8.8.8.8") 53))

create_account-account_from_sni_example :
    account_from_sni (number ++ (dot ∷ example_com)) example_com ≡ some number
unfolding create_account_number create_account get_or_create
create_account-account_from_sni_example =
    create_account-account_from_sni number example_com (get_or_create number default).0 default
      (get_or_create number default).1 refl (unfold trim_dots in refl) (λ h. cc h)
