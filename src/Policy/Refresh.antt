-- ===== src/Policy/Refresh.antt =====
-- The cache behind a refresh, against the control plane in memory.
use brdns.Prelude.{◌≡◌, refl, ◌∙◌, none, some, List, [], Option-cases, inl, inr}
use brdns.Prelude.Int.{ℤ}
use brdns.Prelude.Text.{Text}
use brdns.Prelude.Maps.{lookup, collect, lookup-collect, text_Eq, IsMap}
use brdns.Model.{AccountPolicy}
use brdns.Quota.{Chrono}
use brdns.ControlPlane.{done, ControlPlane}
use brdns.ControlPlane.Service.{in_mem}
use brdns.ControlPlane.InMem.{Inner, rules, active_upstream, get_account, snapshot}
use brdns.ControlPlane.InMem.Accounts.{HasAccounts, snapshot-IsMap}
use brdns.ControlPlane.InMem.Rules.{lookup-snapshot, rules_missing_account}
use brdns.Policy.{PolicyCache, refresh, cached_policy}
use brdns.Pipeline.{cached_rules}

refresh_done :
    (cp : ControlPlane) (s : cp.State) (entries : List (Text × AccountPolicy)) (cache : PolicyCache)
    → cp.snapshot s ≡ done entries
    → (refresh cp s cache).1 ≡ record { inner = collect entries [] }
unfolding refresh
refresh_done cp s entries cache h = rw (h, refresh)

lookup-collect_empty :
    (number : Text) (entries : List (Text × AccountPolicy))
    → IsMap entries
    → lookup number (collect entries []) ≡ lookup number entries
unfolding lookup
lookup-collect_empty number entries w =
    lookup-collect number entries [] w
    ∙ elim (Option-cases (lookup number entries)) [ inl e ↦ rw e | inr (p, e) ↦ rw e ]

pub cached_policy-refresh :
    (cp : ControlPlane) (s : cp.State) (entries : List (Text × AccountPolicy)) (number : Text)
    (cache : PolicyCache)
    → cp.snapshot s ≡ done entries
    → IsMap entries
    → cached_policy number (refresh cp s cache).1 ≡ lookup number entries
unfolding cached_policy
cached_policy-refresh cp s entries number cache h w =
    rw (refresh_done cp s entries cache h) (lookup-collect_empty number entries w)

module _ ⦃c : Chrono⦄ (now : ℤ) where
  -- After a refresh, an account is cached exactly where it exists, with the rules and the active
  -- upstream that the control plane then has for it. What was cached before is gone.
  pub cached_policy-refresh-in_mem :
      (number : Text) (inner : Inner) (cache : PolicyCache)
      → HasAccounts inner
      → cached_policy number (refresh (in_mem now) inner cache).1
        ≡ elim (get_account number inner) [
          | none ↦ none
          | some _ ↦
              some (record { rules = rules number inner; upstream = active_upstream number inner })
        ]
  cached_policy-refresh-in_mem number inner cache w =
      cached_policy-refresh (in_mem now) inner (snapshot inner) number cache refl
        (snapshot-IsMap inner w)
      ∙ lookup-snapshot number inner

  pub cached_rules-refresh :
      (number : Text) (inner : Inner) (cache : PolicyCache)
      → HasAccounts inner
      → cached_rules (cached_policy number (refresh (in_mem now) inner cache).1)
        ≡ rules number inner
  unfolding cached_rules
  cached_rules-refresh number inner cache w =
      rw (cached_policy-refresh-in_mem number inner cache w)
        (elim (Option-cases (get_account number inner)) [
          | inl e ↦ rw (e, rules_missing_account number inner e)
          | inr (account, e) ↦ rw e
        ])
