-- ===== src/Policy.antt =====
-- lib/policy.rs: the cache of every account's policy, which queries read.
pub mod Refresh
pub mod Persisted
use brdns.Prelude.{ℕ, Option, none, some, List, [], length}
use brdns.Prelude.Text.{Text}
use brdns.Prelude.Maps.{lookup, collect, text_Eq}
use brdns.Model.{AccountPolicy}
use brdns.ControlPlane.{CplResult, done, failed, ControlPlane}

-- The map under its lock.
pub record PolicyCache : Type 0 where
  pub inner : List (Text × AccountPolicy)

unfoldable pub new_cache : PolicyCache
new_cache = record { inner = [] }

-- The number of accounts, and the new cache. An error leaves the cache as it was.
unfoldable pub refresh : (cp : ControlPlane) → cp.State → PolicyCache → CplResult ℕ × PolicyCache
unfolding collect
refresh cp s cache = elim (cp.snapshot s) [
  | failed ↦ (failed, cache)
  | done entries ↦ (done (length entries), record { inner = collect entries [] })
]

unfoldable pub cached_policy : Text → PolicyCache → Option AccountPolicy
cached_policy account cache = lookup account cache.inner

unfoldable pub cache_len : PolicyCache → ℕ
cache_len cache = length cache.inner
