-- ===== src/Policy/Persisted.antt =====
-- The cache of lib/policy.rs behind a refresh, against the control plane over Postgres.
use brdns.Prelude.{
  ℕ, ◌+◌, ◌^◌, ◌<◌, ◌≤◌, ◌≡◌, sym, ap, ◌∙◌, true, not, some, List, [], ◌∷◌, All, All-append, length,
}
use mathlib.Core.Path.{subst}
use brdns.Prelude.Int.{ℤ}
use brdns.Prelude.Select.{filter, All-filter}
use brdns.Prelude.Text.{Text}
use brdns.Prelude.Maps.{text_Eq}
use brdns.Model.{Rule, NewRule}
use brdns.Quota.{Chrono}
use brdns.ControlPlane.{CplResult, done, failed}
use brdns.ControlPlane.Sql.{AccountRow, Store}
use brdns.ControlPlane.Sql.Accounts.{select_account}
use brdns.ControlPlane.Sql.Rules.{rule_of, delete_rules}
use brdns.ControlPlane.Postgres.{replace_rules, rules}
use brdns.ControlPlane.Postgres.Rows.{rule_from_row}
use brdns.ControlPlane.Postgres.Ensured.{calm, ensured_there}
use brdns.ControlPlane.Postgres.Grouped.{IsReadable}
use brdns.ControlPlane.Postgres.Stored.{is_storable, rows_of, rule_from_row-rule_row}
use brdns.ControlPlane.Postgres.Replace.{replaced, replace_rules-rules, replace_rules-calm}
use brdns.ControlPlane.Postgres.Policies.{IsClean, IsInSnapshot, snapshot-IsInSnapshot}
use brdns.ControlPlane.Postgres.Service.{postgres}
use brdns.Pipeline.{cached_rules}
use brdns.Policy.{PolicyCache, refresh, cached_policy}
use brdns.Policy.Refresh.{cached_policy-refresh}

rows_of-IsReadable :
    (account position id : ℕ) (news : List NewRule)
    → IsReadable rule_from_row (rows_of account position id news)
rows_of-IsReadable account position id [] = tt
rows_of-IsReadable account position id (new ∷ news) = (
  (_, rule_from_row-rule_row account position new (id + 1)),
  rows_of-IsReadable account (position + 1) (id + 1) news,
)

replaced-IsClean :
    (account : ℕ) (new : List NewRule) (s : Store)
    → IsClean s.tables
    → IsClean (replaced account new s).tables
unfolding delete_rules
replaced-IsClean account new s w = (
  w.0,
  All-append _ (filter (λ row. not (rule_of account row)) s.tables.rules)
      (rows_of account 0 s.sequences.rules new)
      (All-filter _ (λ row. not (rule_of account row)) s.tables.rules w.1)
      (rows_of-IsReadable account 0 s.sequences.rules new),
  w.2,
)

answer : {A : Type 0} → A → CplResult A → A
answer other failed = other
answer other (done a) = a

done_injective : {A : Type 0} (a b : A) → done a ≡ done b → a ≡ b
unfolding answer
done_injective a b e = ap (answer a) e

module _ ⦃c : Chrono⦄ (now : ℤ) where
  -- A replacement whose statements go well, and the cache behind the next refresh.
  abbrev pub IsCached : Text → List NewRule → Store → PolicyCache → Type 0
  IsCached number new s cache =
      (out : List Rule) × (after : Store) × (replace_rules number new (calm s)
        ≡ (done out, calm after))
      × (cached_rules (cached_policy number (refresh (postgres now) after cache).1) ≡ out)

  snapshot-cached :
      (number : Text) (s : Store) (out : List Rule) (cache : PolicyCache)
      → IsInSnapshot number s
      → rules number (calm s) ≡ (done out, calm s)
      → cached_rules (cached_policy number (refresh (postgres now) s cache).1) ≡ out
  unfolding cached_rules
  snapshot-cached number s out cache (entries, policy, e, m, l, r, u) h =
      ap cached_rules
        (cached_policy-refresh (postgres now) s entries number cache (ap (λ r. r.0) e) m ∙ l)
      ∙ done_injective policy.rules out (ap (λ x. x.0) (sym r ∙ h))

  -- Over a database whose accounts can be told apart and whose rows can be read, up to 2 ^ 31
  -- rules are stored for an account that is there, each `limit` rule with a budget and a window,
  -- no statement goes wrong and the sequences have numbers left. Then the replacement answers
  -- rules, and behind the next refresh these are the rules that the queries of the account are
  -- decided by.
  pub replace_rules-IsCached :
      (number : Text) (new : List NewRule) (row : AccountRow) (s : Store) (cache : PolicyCache)
      → IsClean s.tables
      → select_account number s.tables ≡ some row
      → All (λ n. is_storable n ≡ true) new
      → s.sequences.accounts + 1 < 2 ^ 63
      → s.sequences.rules + length new < 2 ^ 63
      → length new ≤ 2 ^ 31
      → IsCached number new s cache
  unfolding select_account delete_rules
  replace_rules-IsCached number new row s cache w a v p q l =
      let (after, e, r) = replace_rules-rules number new s v p q l in
      let at : after ≡ replaced row.id new s =
        ap (λ x. x.1.store) (sym e ∙ replace_rules-calm number new s v p q)
        ∙ ap (λ x. replaced x.0 new x.1) (ensured_there number s row a) in
      let clean : IsClean after.tables =
        subst (λ x. IsClean x.tables) (sym at) (replaced-IsClean row.id new s w) in
      let there : select_account number after.tables ≡ some row =
        ap (λ x. select_account number x.tables) at ∙ a in
      (
        _,
        after,
        e,
        snapshot-cached number after _ cache (snapshot-IsInSnapshot number after row clean there) r,
      )
