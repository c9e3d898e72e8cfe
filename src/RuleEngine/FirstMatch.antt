-- ===== src/RuleEngine/FirstMatch.antt =====
-- Which rule `evaluate` answers by.
use brdns.Prelude.{
  ◌≡◌, refl, Bool, true, false, ◌&&◌, none, some, ◌↔◌, List, [], ◌∷◌, ◌++◌, arith, ap, inl, inr,
  if◌then◌else◌, Bool-cases, All, sym, ◌∙◌,
}
use brdns.Prelude.Text.{Text}
use brdns.Model.{Rule}
use brdns.RuleEngine.{Decision, decide, matched, first_match, evaluate}

module _ (qname : Text) (in_category : Text → Bool) where
  -- The rule is enabled, and its target covers the queried name.
  abbrev pub applies : Rule → Bool
  applies r = r.enabled && matched qname in_category r

  abbrev pub Passes : Rule → Type 0
  Passes r = applies r ≡ false

  -- The rules in front pass the query on, and the next one decides it.
  pub record IsDecidedBy (rules : List Rule) (d : Decision) : Type 0 where
    pub front : List Rule
    pub rule : Rule
    pub back : List Rule
    pub shape : rules ≡ front ++ (rule ∷ back)
    pub passed : All Passes front
    pub hit : applies rule ≡ true
    pub answer : d ≡ decide rule

  evaluate_cons :
      (r : Rule) (rs : List Rule)
      → evaluate (r ∷ rs) qname in_category
        ≡ (if applies r then some (decide r) else evaluate rs qname in_category)
  unfolding evaluate first_match
  evaluate_cons r rs = ground arith

  pub evaluate-some :
      (rules : List Rule) (d : Decision)
      → evaluate rules qname in_category ≡ some d
      → IsDecidedBy rules d
  evaluate-some [] d h = unfold evaluate first_match in cc
  evaluate-some (r ∷ rs) d h = elim (Bool-cases (applies r)) [
    | inl e ↦ record {
      front = [];
      rule = r;
      back = rs;
      shape = refl;
      passed = tt;
      hit = e;
      answer = cc (rw e at (evaluate_cons r rs));
    }
    | inr e ↦
        let w = evaluate-some rs d (sym (evaluate_cons r rs ∙ rw e) ∙ h) in
        record {
          front = r ∷ w.front;
          rule = w.rule;
          back = w.back;
          shape = ap (λ (l : List Rule). r ∷ l) w.shape;
          passed = (e, w.passed);
          hit = w.hit;
          answer = w.answer;
        }
  ]

  evaluate-append_hit :
      (front : List Rule) (r : Rule) (back : List Rule)
      → All Passes front
      → applies r ≡ true
      → evaluate (front ++ (r ∷ back)) qname in_category ≡ some (decide r)
  evaluate-append_hit [] r back h hit = evaluate_cons r back ∙ rw hit
  evaluate-append_hit (x ∷ front) r back h hit =
      evaluate_cons x (front ++ (r ∷ back)) ∙ rw h.0 (evaluate-append_hit front r back h.1 hit)

  -- `evaluate` answers `d` exactly where an enabled rule that matches decides `d`, and every rule
  -- in front of it is disabled or does not match.
  pub evaluate-some_iff :
      (rules : List Rule) (d : Decision)
      → (evaluate rules qname in_category ≡ some d) ↔ IsDecidedBy rules d
  evaluate-some_iff rules d = (
    evaluate-some rules d,
    λ w. rw (w.shape, w.answer) (evaluate-append_hit w.front w.rule w.back w.passed w.hit),
  )

  -- `evaluate` has no answer exactly where each rule is disabled or does not match.
  pub evaluate-none_iff :
      (rules : List Rule) → (evaluate rules qname in_category ≡ none) ↔ All Passes rules
  evaluate-none_iff [] = ((λ _. tt), λ _. unfold evaluate first_match in refl)
  evaluate-none_iff (r ∷ rs) = ground (arith, evaluate_cons r rs, evaluate-none_iff rs)

  -- In a list made of two, the second decides only what the first leaves open.
  pub evaluate-append :
      (xs ys : List Rule)
      → evaluate (xs ++ ys) qname in_category ≡ elim (evaluate xs qname in_category) [
        | none ↦ evaluate ys qname in_category
        | some d ↦ some d
      ]
  evaluate-append [] ys = unfold evaluate first_match in refl
  evaluate-append (r ∷ rs) ys =
      ground (arith, evaluate_cons r rs, evaluate_cons r (rs ++ ys), evaluate-append rs ys)
