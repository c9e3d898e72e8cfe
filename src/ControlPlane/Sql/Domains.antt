-- ===== src/ControlPlane/Sql/Domains.antt =====
-- The statements on the tables `domains` and `domain_categories` of
-- lib/controlplane/storage/postgres.rs.
use brdns.Prelude.{
  Bool, true, false, ◌&&◌, not, Option, none, some, List, [], ◌∷◌, ◌++◌, if◌then◌else◌,
}
use brdns.Prelude.Int.{ℤ, leb_ℤ}
use brdns.Prelude.Select.{exists}
use brdns.Prelude.Text.{Text, text_eq}
use brdns.ControlPlane.{done, failed}
use brdns.ControlPlane.Sql.{Store, Statement}

abbrev pub with_domains : List (Text × ℤ) → List (Text × Text) → Store → Store
with_domains domains categories store = record store {
  tables = record store.tables { domains = domains; domain_categories = categories };
}

-- `DELETE FROM domain_categories`
unfoldable pub delete_categories : Statement Unit
delete_categories store = (done tt, with_domains store.tables.domains [] store)

-- `DELETE FROM domains`. The categories of a deleted domain go with it.
unfoldable pub delete_domains : Statement Unit
delete_domains store = (done tt, with_domains [] [] store)

unfoldable pub has_domain : Text → List (Text × ℤ) → Bool
unfolding text_eq
has_domain domain rows = exists (λ row. text_eq row.0 domain) rows

unfoldable pub has_pair : Text → Text → List (Text × Text) → Bool
unfolding text_eq
has_pair domain category rows = exists (λ row. text_eq row.0 domain && text_eq row.1 category) rows

-- `INSERT INTO domains ...`, which the primary key refuses for a domain that is there.
unfoldable pub insert_domain : Text → ℤ → Statement Unit
unfolding has_domain
insert_domain domain now store = elim (has_domain domain store.tables.domains) [
  | true ↦ (failed, store)
  | false ↦ (
    done tt,
    with_domains (store.tables.domains ++ ((domain, now) ∷ [])) store.tables.domain_categories
        store,
  )
]

-- `INSERT INTO domain_categories ...`, with the foreign key and the primary key.
unfoldable pub insert_category : Text → Text → Statement Unit
unfolding has_domain has_pair
insert_category domain category store =
    elim (has_domain domain store.tables.domains
      && not (has_pair domain category store.tables.domain_categories)) [
        | false ↦ (failed, store)
        | true ↦ (
          done tt,
          with_domains store.tables.domains
              (store.tables.domain_categories ++ ((domain, category) ∷ [])) store,
        )
      ]

-- `SELECT MAX(updated_at) FROM domains`: one row, whose value is `NULL` over an empty table.
unfoldable pub max_updated_at : List (Text × ℤ) → Option ℤ
max_updated_at [] = none
max_updated_at ((domain, t) ∷ rows) = elim (max_updated_at rows) [
  | none ↦ some t
  | some best ↦ if leb_ℤ best t then some t else some best
]
