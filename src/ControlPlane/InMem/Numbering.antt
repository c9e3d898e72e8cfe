-- ===== src/ControlPlane/InMem/Numbering.antt =====
-- `replace_rules` of lib/controlplane/storage/inmem.rs: the places, identifiers and contents of the
-- stored rules.
use brdns.Prelude.{
  ℕ, zero, suc, ◌+◌, ◌%◌, ◌^◌, ◌<◌, ◌≡◌, refl, ap, ◌∙◌, some, List, [], ◌∷◌, arith, length,
  get_elem?, Option, none,
}
use brdns.Model.{Rule, NewRule}
use brdns.ControlPlane.InMem.{
  Inner, get_or_create, rules, list_upstreams, number_rules, replace_rules,
}
use brdns.ControlPlane.InMem.Rules.{
  get_or_create-fresh, get_or_create_found, replace_rules_answer, replace_rules-IsReplaced,
}
use brdns.Prelude.Text.{Text}
use brdns.Prelude.Maps.{lookup, text_Eq}
use brdns.Prelude.{sym, ◌≢◌, Option-cases, inl, inr}

-- The new rule as it is stored: its identifier, its account, its position and its content.
abbrev pub stored_rule : ℕ → ℕ → ℕ → NewRule → Rule
stored_rule id account_id position new = record {
  id = id;
  account_id = account_id;
  position = position;
  action = new.action;
  target_type = new.target_type;
  target_value = new.target_value;
  limit_count = new.limit_count;
  limit_window = new.limit_window;
  enabled = new.enabled;
}

abbrev pub stored_at : ℕ → ℕ → ℕ → Option NewRule → Option Rule
stored_at id account_id position none = none
stored_at id account_id position (some new) = some (stored_rule id account_id position new)

number_rules_from :
    (account_id position id : ℕ) (news : List NewRule) (i : ℕ)
    → id + length news < 2 ^ 64
    → position + length news < 2 ^ 32
    → get_elem? (number_rules account_id position id news).0 i
      ≡ stored_at (id + i + 1) account_id (position + i) (get_elem? news i)
unfolding number_rules
number_rules_from account_id position id [] i h k = refl
number_rules_from account_id position id (x ∷ news) zero h k =
    let p : position % 2 ^ 32 ≡ position + 0 = omega arith in
    let q : (id + 1) % 2 ^ 64 ≡ id + 0 + 1 = omega arith in ground arith
number_rules_from account_id position id (x ∷ news) (suc i) h k =
    let q : (id + 1) % 2 ^ 64 ≡ id + 1 = omega arith in
    let e : id + 1 + i + 1 ≡ id + suc i + 1 = omega arith in
    let m : position + 1 + i ≡ position + suc i = omega arith in
    let r =
      number_rules_from account_id (position + 1) (id + 1) news i (omega arith) (omega arith) in
    rw q (rw (e, m) at r)

zero_add : (i : ℕ) → 0 + i ≡ i
zero_add i = omega arith

-- Asking for an account leaves the counter of the rules.
get_or_create_next_rule_id :
    (number : Text) (inner : Inner)
    → (get_or_create number inner).1.next_rule_id ≡ inner.next_rule_id
get_or_create_next_rule_id number inner = elim (Option-cases (lookup number inner.accounts)) [
  | inl e ↦ rw (get_or_create-fresh number inner e)
  | inr (rec, e) ↦ rw (get_or_create_found number inner rec e)
]

-- Storing rules for an account, which is made if it is missing, while the counter of 64 bits and the
-- positions of 32 bits do not wrap: the account then holds each new rule at its index, as its
-- position, with the next identifier in turn and its content unchanged, and no other rule; the
-- answer is what the account holds; its upstreams and every other account are unchanged.
pub replace_rules-stored_rule :
    (number other : Text) (new : List NewRule) (inner : Inner)
    → number ≢ other
    → inner.next_rule_id + length new < 2 ^ 64
    → length new < 2 ^ 32
    → let (answer, next) = replace_rules number new inner in
      ((i : ℕ)
        → get_elem? (rules number next) i
          ≡ stored_at
              (inner.next_rule_id + i + 1)
              (get_or_create number inner).0.id
              i
              (get_elem? new i))
      × (answer ≡ rules number next)
      × (list_upstreams number next ≡ list_upstreams number inner)
      × (lookup other next.accounts ≡ lookup other inner.accounts)
replace_rules-stored_rule number other new inner n h k =
    let w = replace_rules-IsReplaced number new inner in
    let same = get_or_create_next_rule_id number inner in
    (
      λ i.
          ap (λ l. get_elem? l i) (w.stored ∙ replace_rules_answer number new inner)
          ∙ rw same (
              rw (zero_add i) at (
                number_rules_from (get_or_create number inner).0.id 0 inner.next_rule_id new i h
                  (omega (arith, k)))),
      sym w.stored,
      w.upstreams_kept,
      w.others_kept other n,
    )
