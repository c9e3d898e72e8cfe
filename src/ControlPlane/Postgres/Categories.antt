-- ===== src/ControlPlane/Postgres/Categories.antt =====
-- The categories of lib/controlplane/storage/postgres.rs.
use brdns.Prelude.{Option, none, some, List, [], ◌∷◌}
use brdns.Prelude.Int.{ℤ}
use brdns.Prelude.Text.{Text}
use brdns.Prelude.Maps.{lookup, insert, text_Eq}
use brdns.Categories.{CategoryMap}
use brdns.Blocklist.{set_insert}
use brdns.ControlPlane.{CplResult, done, failed}
use brdns.ControlPlane.Sql.{Sql, ◌>>=◌, return, lift, execute, select, transaction}
use brdns.ControlPlane.Sql.Domains.{
  delete_categories, delete_domains, insert_domain, insert_category, max_updated_at,
}

abbrev pub or_empty {ℓ} : {A : Type ℓ} → Option (List A) → List A
or_empty none = []
or_empty (some xs) = xs

-- `map.entry(domain).or_default().insert(category)` for each row.
unfoldable pub group : List (Text × Text) → CategoryMap → CategoryMap
unfolding lookup insert
group [] m = m
group ((domain, category) ∷ rows) m =
    group rows (insert domain (set_insert category (or_empty (lookup domain m))) m)

unfoldable pub categories : Sql CategoryMap
unfolding select group
categories = do rows ← select (λ tables. tables.domain_categories); return (group rows [])

unfoldable pub insert_categories : Text → List Text → Sql Unit
insert_categories domain [] = return tt
insert_categories domain (category ∷ cats) = do
  _ ← execute (insert_category domain category)
  insert_categories domain cats

unfoldable pub insert_domains : ℤ → CategoryMap → Sql Unit
unfolding insert_categories
insert_domains now [] = return tt
insert_domains now ((domain, cats) ∷ m) = do
  _ ← execute (insert_domain domain now)
  _ ← insert_categories domain cats
  insert_domains now m

unfoldable pub replace_categories : ℤ → CategoryMap → Sql Unit
unfolding transaction insert_domains
replace_categories now m =
    transaction (do _ ← execute delete_categories; _ ← execute delete_domains; insert_domains now m)

-- The one row of `MAX` is read as a number: over an empty table its `NULL` is an error.
abbrev pub max_row : Option ℤ → CplResult (Option ℤ)
max_row none = failed
max_row (some t) = done (some t)

unfoldable pub last_ingestion : Sql (Option ℤ)
unfolding select max_updated_at
last_ingestion = do row ← select (λ tables. max_updated_at tables.domains); lift (max_row row)
