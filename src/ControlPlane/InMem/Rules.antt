-- ===== src/ControlPlane/InMem/Rules.antt =====
-- Storing rules, and reading them back directly and through the snapshot.
use brdns.Prelude.{
  ◌≡◌, ◌≢◌, refl, sym, ap, ◌∙◌, none, some, List, [], ◌∷◌, arith, Option-cases, inl, inr,
}
use brdns.Prelude.Text.{Text, text_eq_iff}
use brdns.Prelude.Maps.{lookup, insert, lookup-insert, lookup-insert_self, text_Eq}
use brdns.Model.{Account, NewRule}
use brdns.ControlPlane.InMem.{
  AccountRecord, Inner, get_or_create, rules, active_upstream, get_account, number_rules,
  update_account, replace_rules, list_upstreams, next_id, policy_of, snapshot, snapshot_of,
}

abbrev pub fresh : Text → Inner → AccountRecord
fresh number inner = record {
  account = record { id = next_id inner.next_account_id; account_number = number };
  rules = [];
  upstreams = [];
}

pub get_or_create_found :
    (number : Text) (inner : Inner) (rec : AccountRecord)
    → lookup number inner.accounts ≡ some rec
    → get_or_create number inner ≡ (rec.account, inner)
unfolding get_or_create
get_or_create_found number inner rec e = rw (e, get_or_create)

pub get_or_create-fresh :
    (number : Text) (inner : Inner)
    → lookup number inner.accounts ≡ none
    → get_or_create number inner ≡ (
      (fresh number inner).account,
      record inner {
        next_account_id = next_id inner.next_account_id;
        accounts = insert number (fresh number inner) inner.accounts;
      },
    )
unfolding get_or_create
get_or_create-fresh number inner e = rw (e, get_or_create)

-- The account as it is stored.
abbrev pub Stored : Text → Inner → AccountRecord → Type 0
Stored number inner rec = lookup number inner.accounts ≡ some rec

rules_of :
    (number : Text) (inner : Inner) (rec : AccountRecord)
    → Stored number inner rec
    → rules number inner ≡ rec.rules
unfolding rules
rules_of number inner rec e = rw (e, rules)

upstreams_of :
    (number : Text) (inner : Inner) (rec : AccountRecord)
    → Stored number inner rec
    → list_upstreams number inner ≡ rec.upstreams
unfolding list_upstreams
upstreams_of number inner rec e = rw (e, list_upstreams)

rules_missing :
    (number : Text) (inner : Inner) → lookup number inner.accounts ≡ none → rules number inner ≡ []
unfolding rules
rules_missing number inner e = rw (e, rules)

upstreams_missing :
    (number : Text) (inner : Inner)
    → lookup number inner.accounts ≡ none
    → list_upstreams number inner ≡ []
unfolding list_upstreams
upstreams_missing number inner e = rw (e, list_upstreams)

-- An account that was asked for is there, with the rules and upstreams that it had.
pub record IsThere (number : Text) (inner : Inner) : Type 0 where
  pub rec : AccountRecord
  pub stored : Stored number (get_or_create number inner).1 rec
  pub same : rec.account ≡ (get_or_create number inner).0
  pub rules_kept : rec.rules ≡ rules number inner
  pub upstreams_kept : rec.upstreams ≡ list_upstreams number inner

pub get_or_create-IsThere : (number : Text) (inner : Inner) → IsThere number inner
get_or_create-IsThere number inner = elim (Option-cases (lookup number inner.accounts)) [
  | inl e ↦ record {
    rec = fresh number inner;
    stored = rw (get_or_create-fresh number inner e) (lookup-insert_self number _ inner.accounts);
    same = rw (get_or_create-fresh number inner e);
    rules_kept = sym (rules_missing number inner e);
    upstreams_kept = sym (upstreams_missing number inner e);
  }
  | inr (rec, e) ↦ record {
    rec = rec;
    stored = rw (get_or_create_found number inner rec e) e;
    same = rw (get_or_create_found number inner rec e);
    rules_kept = sym (rules_of number inner rec e);
    upstreams_kept = sym (upstreams_of number inner rec e);
  }
]

insert_other :
    (number other : Text) (rec : AccountRecord) (m : List (Text × AccountRecord))
    → number ≢ other
    → lookup other (insert number rec m) ≡ lookup other m
insert_other number other rec m n =
    lookup-insert number other rec m ∙ ground (arith, text_eq_iff number other)

pub get_or_create_other :
    (number other : Text) (inner : Inner)
    → number ≢ other
    → lookup other (get_or_create number inner).1.accounts ≡ lookup other inner.accounts
get_or_create_other number other inner n = elim (Option-cases (lookup number inner.accounts)) [
  | inl e ↦ rw (get_or_create-fresh number inner e) (insert_other number other _ inner.accounts n)
  | inr (rec, e) ↦ rw (get_or_create_found number inner rec e)
]

-- Asking for an account again answers the same account and changes nothing.
pub get_or_create_idem :
    (number : Text) (inner : Inner)
    → get_or_create number (get_or_create number inner).1 ≡ get_or_create number inner
get_or_create_idem number inner =
    let there = get_or_create-IsThere number inner in
    get_or_create_found number (get_or_create number inner).1 there.rec there.stored
    ∙ ap (λ (a : Account). (a, (get_or_create number inner).1)) there.same

update_stored :
    (number : Text) (f : AccountRecord → AccountRecord) (inner : Inner) (rec : AccountRecord)
    → Stored number inner rec
    → update_account number f inner
      ≡ record inner { accounts = insert number (f rec) inner.accounts }
unfolding update_account
update_stored number f inner rec e = rw (e, update_account)

-- The answer is what the account then holds; its upstreams and every other account are unchanged.
pub record IsReplaced (number : Text) (new : List NewRule) (inner : Inner) : Type 0 where
  pub stored : rules number (replace_rules number new inner).1 ≡ (replace_rules number new inner).0
  pub upstreams_kept :
      list_upstreams number (replace_rules number new inner).1 ≡ list_upstreams number inner
  pub others_kept :
      (other : Text)
      → number ≢ other
      → lookup other (replace_rules number new inner).1.accounts ≡ lookup other inner.accounts

-- `replace_rules` as the account is found, numbered and updated.
replace_rules_at :
    (number : Text) (new : List NewRule) (inner : Inner) (rec : AccountRecord)
    → Stored number (get_or_create number inner).1 rec
    → let (account, created) = get_or_create number inner in
      let (out, last) = number_rules account.id 0 created.next_rule_id new in
      replace_rules number new inner ≡ (
        out,
        record created {
          next_rule_id = last;
          accounts = insert number (record rec { rules = out }) created.accounts;
        },
      )
unfolding replace_rules
replace_rules_at number new inner rec e =
    let (account, created) = get_or_create number inner in
    let (out, last) = number_rules account.id 0 created.next_rule_id new in
    ap (λ (i : Inner). (out, i))
      (update_stored number _ (record created { next_rule_id = last }) rec e)

-- The answer is the new rules, numbered.
pub replace_rules_answer :
    (number : Text) (new : List NewRule) (inner : Inner)
    → (replace_rules number new inner).0
      ≡ (number_rules
          (get_or_create number inner).0.id
          0
          (get_or_create number inner).1.next_rule_id
          new).0
replace_rules_answer number new inner =
    let there = get_or_create-IsThere number inner in
    ap (λ r. r.0) (replace_rules_at number new inner there.rec there.stored)

-- Storing rules for an account, which is made if it is missing: the answer is what the account then
-- holds, its upstreams are kept, and every other account is unchanged.
pub replace_rules-IsReplaced :
    (number : Text) (new : List NewRule) (inner : Inner) → IsReplaced number new inner
replace_rules-IsReplaced number new inner =
    let there = get_or_create-IsThere number inner in
    let at = replace_rules_at number new inner there.rec there.stored in
    let created = (get_or_create number inner).1 in
    record {
      stored = rw at (rules_of number _ _ (lookup-insert_self number _ created.accounts));
      upstreams_kept = rw at (
          upstreams_of number _ _ (lookup-insert_self number _ created.accounts)
          ∙ there.upstreams_kept);
      others_kept = λ other n. rw at (
          insert_other number other _ created.accounts n
          ∙ get_or_create_other number other inner n);
    }

pub lookup-snapshot_of :
    (number : Text) (accounts : List (Text × AccountRecord))
    → lookup number (snapshot_of accounts)
      ≡ elim (lookup number accounts) [ none ↦ none | some rec ↦ some (policy_of rec) ]
unfolding snapshot_of lookup
lookup-snapshot_of number [] = refl
lookup-snapshot_of number ((n, rec) ∷ more) = ground (arith, lookup-snapshot_of number more)

-- The snapshot holds an entry for exactly the accounts that exist, with the rules and the active
-- upstream that the queries for the account answer.
pub lookup-snapshot :
    (number : Text) (inner : Inner)
    → lookup number (snapshot inner) ≡ elim (get_account number inner) [
      | none ↦ none
      | some _ ↦
          some (record { rules = rules number inner; upstream = active_upstream number inner })
    ]
unfolding snapshot get_account rules active_upstream
lookup-snapshot number inner = ground (arith, lookup-snapshot_of number inner.accounts)

pub rules_missing_account :
    (number : Text) (inner : Inner) → get_account number inner ≡ none → rules number inner ≡ []
unfolding get_account rules
rules_missing_account number inner h = ground arith
