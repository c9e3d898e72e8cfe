-- ===== src/Pipeline/Effects.antt =====
-- What a query sends, spends and answers, by the rule that decides it.
use brdns.Prelude.{
  ℕ, ◌≡◌, refl, ◌∙◌, inl, inr, All, Option-cases, Bool, true, false, Option, none, some, List, [],
  ◌∷◌, ◌++◌,
}
use brdns.Prelude.Int.{ℤ, pos, leb_ℤ}
use brdns.Prelude.Text.{Text}
use brdns.Model.{AccountPolicy, Window}
use brdns.Buffer.{Error, Result, ok, err}
use brdns.Buffer.Qname.{Unicode}
use brdns.Blocking.{synthesize}
use brdns.Categories.{contains}
use brdns.RuleEngine.{Decision, evaluate}
use brdns.RuleEngine.FirstMatch.{Passes, IsDecidedBy, evaluate-some, evaluate-none_iff}
use brdns.Upstream.{Shared}
use brdns.Policy.{cached_policy}
use brdns.ControlPlane.{CplResult, done, failed, ControlPlane}
use brdns.Pipeline.{
  allow, deny, limit_ok, limit_exceeded, error, PipelineError, failure, Pipeline, Step, synthesized,
  received, cached_rules, transport_for, query_name, forward, block, limited, handle_decision,
  decision_for, handle_inner,
}

module _ ⦃u : Unicode⦄ (cp : ControlPlane) (network : Shared → List ℕ → Option (List ℕ)) where
  -- The answer is the policy's, and nothing leaves for an upstream.
  abbrev pub IsBlocked : List ℕ → Pipeline cp → Step cp network → Type 0
  IsBlocked raw s step =
      (step.1 ≡ synthesized (synthesize raw s.policy))
      × (step.2.sent ≡ s.sent)
      × (step.2.upstreams ≡ s.upstreams)

  -- The bytes leave once and unchanged for the account's transport, and what comes back is the
  -- answer.
  abbrev pub IsForwarded : Text → List ℕ → Pipeline cp → Step cp network → Type 0
  IsForwarded account raw s step =
      let (t, pool) = transport_for (cached_policy account s.cache) s.upstreams in
      (step.1 ≡ received (network t raw))
      × (step.2.sent ≡ s.sent ++ ((t, raw) ∷ []))
      × (step.2.upstreams ≡ pool)

  -- What a `limit` rule makes of the control plane's answer.
  abbrev pub IsMetered : Text → List ℕ → Pipeline cp → CplResult Bool → Step cp network → Type 0
  IsMetered account raw s (done true) step = (step.0 ≡ limit_ok) × IsForwarded account raw s step
  IsMetered account raw s (done false) step = (step.0 ≡ limit_exceeded) × IsBlocked raw s step
  IsMetered account raw s failed step =
      (step.0 ≡ error)
      × (step.1 ≡ failure PipelineError.control_plane)
      × (step.2.sent ≡ s.sent)
      × (step.2.upstreams ≡ s.upstreams)

  abbrev pub IsHandled : Text → List ℕ → Pipeline cp → Option Decision → Step cp network → Type 0
  IsHandled account raw s none step = (step.0 ≡ allow) × IsForwarded account raw s step
  IsHandled account raw s (some Decision.allow) step =
      (step.0 ≡ allow) × IsForwarded account raw s step
  IsHandled account raw s (some Decision.deny) step = (step.0 ≡ deny) × IsBlocked raw s step
  IsHandled account raw s (some (Decision.limit id n w)) step =
      IsMetered account raw s (cp.record_quota account id n w s.control).0 step

  -- What the cached rules say of the name: the first that applies decides it, or none applies.
  abbrev pub IsRuled : Text → Text → Pipeline cp → Option Decision → Type 0
  IsRuled account qname s none =
      All (Passes qname (λ cat. contains s.categories qname cat))
        (cached_rules (cached_policy account s.cache))
  IsRuled account qname s (some d) =
      IsDecidedBy qname (λ cat. contains s.categories qname cat)
        (cached_rules (cached_policy account s.cache)) d

  abbrev pub IsServed : Text → List ℕ → Pipeline cp → Result Text → Step cp network → Type 0
  IsServed account raw s (err e) step =
      (step.0 ≡ error) × (step.1 ≡ failure (PipelineError.message e)) × (step.2 ≡ s)
  IsServed account raw s (ok qname) step =
      (d : Option Decision) × IsRuled account qname s d × IsHandled account raw s d step

  limited-IsMetered :
      (account : Text) (raw : List ℕ) (granted : CplResult Bool) (s : Pipeline cp) (next : cp.State)
      → IsMetered account raw s granted (
          limited cp network
            (cached_policy account s.cache)
            raw
            granted
            (record s { control = next }))
  unfolding limited forward block
  limited-IsMetered account raw (done true) s next = (refl, (refl, refl, refl))
  limited-IsMetered account raw (done false) s next = (refl, (refl, refl, refl))
  limited-IsMetered account raw failed s next = (refl, refl, refl, refl)

  decision-IsHandled :
      (account : Text) (raw : List ℕ) (d : Option Decision) (s : Pipeline cp)
      → IsHandled account raw s d (handle_decision cp network account raw d s)
  unfolding handle_decision forward block
  decision-IsHandled account raw none s = (refl, (refl, refl, refl))
  decision-IsHandled account raw (some Decision.allow) s = (refl, (refl, refl, refl))
  decision-IsHandled account raw (some Decision.deny) s = (refl, (refl, refl, refl))
  decision-IsHandled account raw (some (Decision.limit id n w)) s =
      limited-IsMetered account raw (cp.record_quota account id n w s.control).0 s
        (cp.record_quota account id n w s.control).1

  decision_for-IsRuled :
      (account qname : Text) (s : Pipeline cp)
      → IsRuled account qname s (decision_for cp network account qname s)
  unfolding decision_for
  decision_for-IsRuled account qname s =
      let in_category : Text → Bool = λ cat. contains s.categories qname cat in
      let rules = cached_rules (cached_policy account s.cache) in
      elim (Option-cases (evaluate rules qname in_category)) [
        | inl e ↦ rw e ((evaluate-none_iff qname in_category rules).0 e)
        | inr (d, e) ↦ rw e (evaluate-some qname in_category rules d e)
      ]

  pub handle_inner_unnamed :
      (account : Text) (raw : List ℕ) (e : Error) (s : Pipeline cp)
      → query_name raw ≡ err e
      → handle_inner cp network account raw s ≡ (error, failure (PipelineError.message e), s)
  unfolding handle_inner
  handle_inner_unnamed account raw e s h = rw (h, handle_inner)

  pub handle_inner_named :
      (account : Text) (raw : List ℕ) (qname : Text) (s : Pipeline cp)
      → query_name raw ≡ ok qname
      → handle_inner cp network account raw s
        ≡ handle_decision cp network account raw (decision_for cp network account qname s) s
  unfolding handle_inner
  handle_inner_named account raw qname s h = rw (h, handle_inner)

  -- Whatever the bytes: where no name is read from them, the step fails with the error of the reader
  -- and changes nothing. Otherwise the first cached rule that applies to the name says what happens,
  -- or no rule applies and the query is let through. One that a rule denies, or that the control
  -- plane refuses for a `limit` rule, is answered from the policy and nothing leaves for an upstream;
  -- one that is let through, or that the control plane grants, leaves once and unchanged for the
  -- account's transport, and what comes back is the answer; and one that the control plane fails for
  -- sends nothing and answers an error. The outcome names the case.
  pub handle_inner-IsServed :
      (account : Text) (raw : List ℕ) (s : Pipeline cp)
      → IsServed account raw s (query_name raw) (handle_inner cp network account raw s)
  handle_inner-IsServed account raw s = go (query_name raw) refl
    where
      go :
          (r : Result Text)
          → query_name raw ≡ r
          → IsServed account raw s r (handle_inner cp network account raw s)
      go (err e) h = rw (handle_inner_unnamed account raw e s h) (refl, refl, refl)
      go (ok qname) h =
          let d = decision_for cp network account qname s in
          (
            d,
            decision_for-IsRuled account qname s,
            rw (handle_inner_named account raw qname s h) (decision-IsHandled account raw d s),
          )

  -- What the decision costs: only a `limit` rule calls the control plane, and once.
  abbrev pub charged : Text → Option Decision → cp.State → cp.State
  charged account none control = control
  charged account (some Decision.allow) control = control
  charged account (some Decision.deny) control = control
  charged account (some (Decision.limit id n w)) control =
      (cp.record_quota account id n w control).1

  limited-control :
      (cached : Option AccountPolicy) (raw : List ℕ) (granted : CplResult Bool) (s : Pipeline cp)
      → (limited cp network cached raw granted s).2.control ≡ s.control
  unfolding limited forward block
  limited-control cached raw (done true) s = refl
  limited-control cached raw (done false) s = refl
  limited-control cached raw failed s = refl

  decision-control :
      (account : Text) (raw : List ℕ) (d : Option Decision) (s : Pipeline cp)
      → (handle_decision cp network account raw d s).2.control ≡ charged account d s.control
  unfolding handle_decision forward block
  decision-control account raw none s = refl
  decision-control account raw (some Decision.allow) s = refl
  decision-control account raw (some Decision.deny) s = refl
  decision-control account raw (some (Decision.limit id n w)) s =
      limited-control (cached_policy account s.cache) raw
        (cp.record_quota account id n w s.control).0
        (record s { control = (cp.record_quota account id n w s.control).1 })

  -- A query whose name is read charges the control plane once where a `limit` rule decides it, and
  -- leaves the control plane as it was otherwise.
  pub handle_inner-control :
      (account : Text) (raw : List ℕ) (qname : Text) (s : Pipeline cp)
      → query_name raw ≡ ok qname
      → (handle_inner cp network account raw s).2.control
        ≡ charged account (decision_for cp network account qname s) s.control
  handle_inner-control account raw qname s h =
      rw (handle_inner_named account raw qname s h)
        (decision-control account raw (decision_for cp network account qname s) s)

  decision_used_up :
      (account : Text) (raw : List ℕ) (id : ℕ) (n : ℤ) (w : Window) (s : Pipeline cp)
      → leb_ℤ n (pos 0) ≡ true
      → handle_decision cp network account raw (some (Decision.limit id n w)) s
        ≡ (limit_exceeded, synthesized (synthesize raw s.policy), s)
  unfolding handle_decision limited block
  decision_used_up account raw id n w s h =
      rw (cp.used_up account id n w s.control h, handle_decision)

  pub handle_inner_used_up :
      (account : Text) (raw : List ℕ) (qname : Text) (id : ℕ) (n : ℤ) (w : Window) (s : Pipeline cp)
      → query_name raw ≡ ok qname
      → decision_for cp network account qname s ≡ some (Decision.limit id n w)
      → leb_ℤ n (pos 0) ≡ true
      → handle_inner cp network account raw s
        ≡ (limit_exceeded, synthesized (synthesize raw s.policy), s)
  handle_inner_used_up account raw qname id n w s h d k =
      handle_inner_named account raw qname s h ∙ rw d (decision_used_up account raw id n w s k)
