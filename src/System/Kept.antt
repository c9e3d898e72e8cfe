-- ===== src/System/Kept.antt =====
-- What the events of the server leave alone in the control plane in memory.
use brdns.Prelude.{
  ◌≡◌, ◌≢◌, ◌⊎◌, refl, sym, ap, ◌∙◌, Option, none, some, List, [], arith, Bool-cases, Option-cases,
  inl, inr,
}
use brdns.Prelude.Text.{Text, text_eq, text_eq_iff}
use brdns.Prelude.Maps.{lookup, insert, lookup-insert, text_Eq}
use brdns.Model.{Rule, NewRule, NewUpstream}
use brdns.ControlPlane.InMem.{
  Inner, AccountRecord, rules, get_or_create, update_account, replace_rules, replace_upstreams,
}
use brdns.ControlPlane.InMem.Accounts.{
  HasAccounts, get_or_create-HasAccounts, replace_rules-HasAccounts, replace_upstreams-HasAccounts,
}
use brdns.ControlPlane.InMem.Rules.{
  get_or_create-IsThere, get_or_create_other, replace_rules-IsReplaced,
}

-- The accounts are still told apart, and the account has the same rules.
unfoldable pub IsKept : Text → Inner → Inner → Type 0
IsKept number before after =
    (HasAccounts before → HasAccounts after) × (rules number after ≡ rules number before)

pub IsKept-same : (number : Text) (s t : Inner) → t.accounts ≡ s.accounts → IsKept number s t
unfolding IsKept rules
IsKept-same number s t h = (λ w. rw h w, rw h refl)

pub IsKept-trans :
    (number : Text) (s t u : Inner) → IsKept number s t → IsKept number t u → IsKept number s u
unfolding IsKept
IsKept-trans number s t u h k = (λ w. k.0 (h.0 w), k.1 ∙ h.1)

rules-eq :
    (number : Text) (s t : Inner)
    → lookup number t.accounts ≡ lookup number s.accounts
    → rules number t ≡ rules number s
unfolding rules
rules-eq number s t h =
    ap
      (λ (o : Option AccountRecord). elim o as (λ _. List Rule) [
        | none ↦ []
        | some rec ↦ rec.rules
      ])
      h

text-cases : (s t : Text) → (s ≡ t) ⊎ (s ≢ t)
text-cases s t = elim (Bool-cases (text_eq s t)) [
  | inl e ↦ inl ((text_eq_iff s t).0 e)
  | inr e ↦ inr (λ h. cc (sym e ∙ (text_eq_iff s t).1 h))
]

rules-stored :
    (number : Text) (inner : Inner) (rec : AccountRecord)
    → lookup number inner.accounts ≡ some rec
    → rules number inner ≡ rec.rules
unfolding rules
rules-stored number inner rec e = rw (e, rules)

pub get_or_create-IsKept :
    (number n : Text) (inner : Inner) → IsKept number inner (get_or_create n inner).1
unfolding IsKept
get_or_create-IsKept number n inner = (
  get_or_create-HasAccounts n inner,
  elim (text-cases n number) [
    | inl e ↦
        let there = get_or_create-IsThere n inner in
        ap (λ x. rules x (get_or_create n inner).1) (sym e)
        ∙ rules-stored n (get_or_create n inner).1 there.rec there.stored
        ∙ there.rules_kept
        ∙ ap (λ x. rules x inner) e
    | inr e ↦ rules-eq number inner _ (get_or_create_other n number inner e)
  ],
)

update_account-missing :
    (n : Text) (f : AccountRecord → AccountRecord) (inner : Inner)
    → lookup n inner.accounts ≡ none
    → update_account n f inner ≡ inner
unfolding update_account
update_account-missing n f inner e = rw (e, update_account)

update_account-found :
    (n : Text) (f : AccountRecord → AccountRecord) (inner : Inner) (rec : AccountRecord)
    → lookup n inner.accounts ≡ some rec
    → update_account n f inner ≡ record inner { accounts = insert n (f rec) inner.accounts }
unfolding update_account
update_account-found n f inner rec e = rw (e, update_account)

rules-update_account :
    (number n : Text) (f : AccountRecord → AccountRecord) (inner : Inner)
    → ((rec : AccountRecord) → (f rec).rules ≡ rec.rules)
    → rules number (update_account n f inner) ≡ rules number inner
rules-update_account number n f inner same = elim (Option-cases (lookup n inner.accounts)) [
  | inl e ↦ ap (rules number) (update_account-missing n f inner e)
  | inr (rec, e) ↦
      ap (rules number) (update_account-found n f inner rec e) ∙ elim (text-cases n number) [
        | inl k ↦
            rules-stored number (record inner { accounts = insert n (f rec) inner.accounts })
              (f rec)
              (lookup-insert n number (f rec) inner.accounts ∙ rw ((text_eq_iff n number).1 k) refl)
            ∙ same rec
            ∙ sym (rules-stored number inner rec (ap (λ x. lookup x inner.accounts) (sym k) ∙ e))
        | inr k ↦
            rules-eq number inner (record inner { accounts = insert n (f rec) inner.accounts })
              (lookup-insert n number (f rec) inner.accounts
                ∙ ground (arith, text_eq_iff n number, k))
      ]
]

pub replace_upstreams-IsKept :
    (number n : Text) (new : List NewUpstream) (inner : Inner)
    → IsKept number inner (replace_upstreams n new inner).1
unfolding IsKept replace_upstreams
replace_upstreams-IsKept number n new inner =
    let created = get_or_create n inner in
    (
      unfold replace_upstreams in replace_upstreams-HasAccounts n new inner,
      rules-update_account number n _ _ (λ rec. refl)
          ∙ (IsKept-trans number inner created.1 _ (get_or_create-IsKept number n inner)
              (IsKept-same number created.1 _ refl)).1,
    )

pub replace_rules-IsKept :
    (number n : Text) (new : List NewRule) (inner : Inner)
    → n ≢ number
    → IsKept number inner (replace_rules n new inner).1
unfolding IsKept
replace_rules-IsKept number n new inner h = (
  replace_rules-HasAccounts n new inner,
  rules-eq number inner _ ((replace_rules-IsReplaced n new inner).others_kept number h),
)
