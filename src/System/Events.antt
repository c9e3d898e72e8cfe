-- ===== src/System/Events.antt =====
-- Every event of bin/s.rs against the accounts of the control plane in memory.
use brdns.Prelude.{
  ℕ, ◌≡◌, ◌≢◌, ◌⊎◌, refl, ap, ◌∙◌, true, Option, none, some, List, [], Bool-cases, Option-cases,
  inl, inr, length, ◌==◌, not,
}
use brdns.Prelude.Int.{ℤ, pos, leb_ℤ}
use brdns.Prelude.Text.{Text}
use brdns.Model.{NewRule, Window}
use brdns.Buffer.{Result, ok, err}
use brdns.Buffer.Qname.{Unicode}
use brdns.Categories.{CategoryIndex, len}
use brdns.Blocklist.{Fetched, merge, ingest}
use brdns.Upstream.{Shared}
use brdns.Quota.{Chrono, window_start}
use brdns.RuleEngine.{Decision}
use brdns.ControlPlane.InMem.{
  Inner, create_account, charge, count_at, record_quota, replace_categories,
}
use brdns.ControlPlane.Service.{in_mem, record_at}
use brdns.Http.{
  Reply, create_account_number, account_number_for, replace_rules, replace_upstreams, any_invalid,
}
use brdns.Http as Http
use brdns.Http.Auth.{
  Request, get_healthz, post_account, get_account_of, get_rules, put_rules, get_upstreams,
  put_upstreams, get_presets, dispatch, created_reply, router,
}
use brdns.Http.Guard.{is_api, router-IsGuarded}
use brdns.Model.Input.{is_valid_account_number}
use brdns.Pipeline.{Pipeline, query_name, handle_inner, handle_query, decision_for}
use brdns.Pipeline.Effects.{charged, handle_inner-control, handle_inner_unnamed}
use brdns.System.{managed_inner}
use brdns.System.Kept.{
  IsKept, IsKept-same, get_or_create-IsKept, replace_rules-IsKept, replace_upstreams-IsKept,
}

charge-accounts :
    (key : ℕ × ℤ) (limit : ℤ) (inner : Inner) → (charge key limit inner).1.accounts ≡ inner.accounts
unfolding charge
charge-accounts key limit inner = elim (Bool-cases (leb_ℤ limit (pos (count_at key inner)))) [
  | inl e ↦ rw e refl
  | inr e ↦ rw e refl
]

module _ ⦃c : Chrono⦄ where
  record_at-accounts :
      (now : ℤ) (account : Text) (id : ℕ) (limit : ℤ) (w : Window) (inner : Inner)
      → (record_at now account id limit w inner).1.accounts ≡ inner.accounts
  unfolding record_quota
  record_at-accounts now account id limit w inner = elim (Bool-cases (leb_ℤ limit (pos 0))) [
    | inl e ↦ rw (e, record_at, record_quota) refl
    | inr e ↦ elim (Option-cases (window_start now w)) [
      | inl f ↦ rw (e, f, record_at, record_quota) refl
      | inr (start, f) ↦
          rw (e, f, record_at, record_quota) (charge-accounts (id, start) limit inner)
    ]
  ]

  module _ ⦃u : Unicode⦄ (network : Shared → List ℕ → Option (List ℕ)) where
    charged-accounts :
        (now : ℤ) (account : Text) (d : Option Decision) (inner : Inner)
        → (charged (in_mem now) network account d inner).accounts ≡ inner.accounts
    charged-accounts now account none inner = refl
    charged-accounts now account (some Decision.allow) inner = refl
    charged-accounts now account (some Decision.deny) inner = refl
    charged-accounts now account (some (Decision.limit id n w)) inner =
        record_at-accounts now account id n w inner

    -- A query leaves the accounts alone.
    pub handle_query-accounts :
        (now : ℤ) (account : Text) (raw : List ℕ) (s : Pipeline (in_mem now))
        → (handle_query (in_mem now) network account raw s).1.control.accounts ≡ s.control.accounts
    unfolding handle_query
    handle_query-accounts now account raw s = by_name (query_name raw) refl
      where
        by_name :
            (r : Result Text)
            → query_name raw ≡ r
            → (handle_inner (in_mem now) network account raw s).2.control.accounts
              ≡ s.control.accounts
        by_name (err e) h = rw (handle_inner_unnamed (in_mem now) network account raw e s h) refl
        by_name (ok qname) h =
            ap (λ (i : Inner). i.accounts)
              (handle_inner-control (in_mem now) network account raw qname s h)
            ∙ charged-accounts now account (decision_for (in_mem now) network account qname s)
                s.control

pub ingest-accounts :
    (now : ℤ) (fetched : List Fetched) (inner : Inner) (index : CategoryIndex)
    → (ingest now fetched inner index).1.accounts ≡ inner.accounts
unfolding ingest replace_categories
ingest-accounts now fetched inner index =
    elim (Bool-cases (length (merge fetched []) == len index)) [
      | inl e ↦ rw e refl
      | inr e ↦ rw e refl
    ]

-- Any request but one that stores rules for the account.
abbrev pub IsOther : Text → Request → Type 0
IsOther number (put_rules n body) = n ≢ number
IsOther number (post_account random n) = Unit
IsOther number (get_account_of n) = Unit
IsOther number (get_rules n) = Unit
IsOther number (get_upstreams n) = Unit
IsOther number (put_upstreams n body) = Unit
IsOther number get_presets = Unit
IsOther number get_healthz = Unit

IsKept-refl : (number : Text) (s : Inner) → IsKept number s s
IsKept-refl number s = IsKept-same number s s refl

create_account_number-IsKept :
    (number n : Text) (inner : Inner) → IsKept number inner (create_account_number n inner).1
unfolding create_account_number create_account
create_account_number-IsKept number n inner = elim (Bool-cases (not (is_valid_account_number n))) [
  | inl e ↦ rw (e, create_account_number) (IsKept-refl number inner)
  | inr e ↦ rw (e, create_account_number) (get_or_create-IsKept number n inner)
]

post-IsKept :
    (number n : Text) (random : List ℕ) (inner : Inner)
    → IsKept number inner
        (managed_inner inner (created_reply inner (Http.create_account random n inner)))
unfolding Http.create_account
post-IsKept number n random inner = elim (Option-cases (account_number_for random n)) [
  | inl e ↦ rw (e, Http.create_account) (IsKept-refl number inner)
  | inr (made, e) ↦ rw (e, Http.create_account) (create_account_number-IsKept number made inner)
]

put-IsKept :
    (number n : Text) (body : List NewRule) (inner : Inner)
    → n ≢ number
    → IsKept number inner (Http.replace_rules n body inner).1
unfolding Http.replace_rules
put-IsKept number n body inner h = elim (Bool-cases (any_invalid body)) [
  | inl e ↦ rw (e, Http.replace_rules) (IsKept-refl number inner)
  | inr e ↦ rw (e, Http.replace_rules) (replace_rules-IsKept number n body inner h)
]

dispatch-IsKept :
    (number : Text) (request : Request) (inner : Inner)
    → IsOther number request
    → IsKept number inner (managed_inner inner (dispatch request inner))
unfolding dispatch Http.replace_upstreams
dispatch-IsKept number (post_account random n) inner h = post-IsKept number n random inner
dispatch-IsKept number (get_account_of n) inner h = IsKept-refl number inner
dispatch-IsKept number (get_rules n) inner h = IsKept-refl number inner
dispatch-IsKept number (put_rules n body) inner h = put-IsKept number n body inner h
dispatch-IsKept number (get_upstreams n) inner h = IsKept-refl number inner
dispatch-IsKept number (put_upstreams n body) inner h = replace_upstreams-IsKept number n body inner
dispatch-IsKept number get_presets inner h = IsKept-refl number inner
dispatch-IsKept number get_healthz inner h = IsKept-refl number inner

is_api-cases : (request : Request) → (is_api request ≡ true) ⊎ (request ≡ get_healthz)
is_api-cases (post_account random n) = inl refl
is_api-cases (get_account_of n) = inl refl
is_api-cases (get_rules n) = inl refl
is_api-cases (put_rules n body) = inl refl
is_api-cases (get_upstreams n) = inl refl
is_api-cases (put_upstreams n body) = inl refl
is_api-cases get_presets = inl refl
is_api-cases get_healthz = inr refl

-- Whether or not a request carries the token, it keeps the rules of any account that it does not
-- store rules for.
pub router-IsKept :
    (to_str : List ℕ → Option Text) (token : Option Text) (header : Option (List ℕ)) (number : Text)
    (request : Request) (inner : Inner)
    → IsOther number request
    → IsKept number inner (managed_inner inner (router to_str token header request inner))
router-IsKept to_str token header number request inner h = elim (is_api-cases request) [
  | inr e ↦ rw e (unfold router dispatch in IsKept-refl number inner)
  | inl api ↦ elim (router-IsGuarded to_str token header request inner api) [
    | inl (a, e) ↦ rw e (dispatch-IsKept number request inner h)
    | inr (a, e) ↦ rw e (IsKept-refl number inner)
  ]
]
