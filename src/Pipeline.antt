-- ===== src/Pipeline.antt =====
-- lib/pipeline.rs: what becomes of one query of an account. The messages that leave for an upstream
-- are kept in order in `sent`, which the program does not have; spans and metrics are left out.
pub mod Effects
pub mod Budget
use brdns.Prelude.{ℕ, Bool, true, false, Option, none, some, List, [], ◌∷◌, ◌++◌}
use brdns.Prelude.Int.{ℤ}
use brdns.Prelude.Text.{Text}
use brdns.Model.{AccountPolicy, Rule, Window}
use brdns.Buffer.{Error, Result, ok, err}
use brdns.Buffer.Qname.{Unicode}
use brdns.Protocol.Packet.{DnsPacket}
use brdns.Blocking.{BlockPolicy, first_name, parse, synthesize}
use brdns.Categories.{CategoryIndex, contains}
use brdns.RuleEngine.{Decision, evaluate}
use brdns.Upstream.{Shared, UpstreamPool, get_transport}
use brdns.Policy.{PolicyCache, cached_policy}
use brdns.ControlPlane.{CplResult, done, failed, ControlPlane}

-- `Outcome` of lib/observability/metrics.rs.
pub data Outcome : Type 0 where
  allow deny limit_ok limit_exceeded error : Outcome

pub data PipelineError : Type 0 where
  message : Error → PipelineError
  control_plane upstream : PipelineError

pub data Answer : Type 0 where
  response : List ℕ → Answer
  failure : PipelineError → Answer

pub record Pipeline (cp : ControlPlane) : Type 0 where
  pub control : cp.State
  pub categories : CategoryIndex
  pub upstreams : UpstreamPool
  pub policy : BlockPolicy
  pub cache : PolicyCache
  pub sent : List (Shared × List ℕ)

abbrev pub synthesized : Result (List ℕ) → Answer
synthesized (ok out) = response out
synthesized (err e) = failure (message e)

abbrev pub received : Option (List ℕ) → Answer
received none = failure upstream
received (some out) = response out

-- The rules of the cached policy, or none.
unfoldable pub cached_rules : Option AccountPolicy → List Rule
cached_rules none = []
cached_rules (some p) = p.rules

unfoldable pub transport_for : Option AccountPolicy → UpstreamPool → Shared × UpstreamPool
unfolding get_transport
transport_for none pool = (pool.fallback, pool)
transport_for (some p) pool = elim p.upstream [
  | none ↦ (pool.fallback, pool)
  | some u ↦ get_transport u pool
]

module _ ⦃u : Unicode⦄ where
  unfoldable pub query_name : List ℕ → Result Text
  unfolding first_name
  query_name raw = elim (parse raw) [ err e ↦ err e | ok packet ↦ ok (first_name packet.questions) ]

-- `network` is what comes back from an upstream for a message, or nothing where `send_recv` fails.
module _ ⦃u : Unicode⦄ (cp : ControlPlane) (network : Shared → List ℕ → Option (List ℕ)) where
  abbrev pub Step : Type 0
  Step = Outcome × Answer × Pipeline cp

  unfoldable pub forward : Outcome → Option AccountPolicy → List ℕ → Pipeline cp → Step
  forward outcome cached raw s =
      let (t, pool) = transport_for cached s.upstreams in
      (
        outcome,
        received (network t raw),
        record s { upstreams = pool; sent = s.sent ++ ((t, raw) ∷ []) },
      )

  unfoldable pub block : Outcome → List ℕ → Pipeline cp → Step
  block outcome raw s = (outcome, synthesized (synthesize raw s.policy), s)

  -- The part of a `limit` decision behind the call of the control plane.
  unfoldable pub limited : Option AccountPolicy → List ℕ → CplResult Bool → Pipeline cp → Step
  unfolding forward block
  limited cached raw (done true) s = forward limit_ok cached raw s
  limited cached raw (done false) s = block limit_exceeded raw s
  limited cached raw failed s = (error, failure control_plane, s)

  unfoldable pub handle_decision : Text → List ℕ → Option Decision → Pipeline cp → Step
  unfolding forward block limited
  handle_decision account raw none s = forward allow (cached_policy account s.cache) raw s
  handle_decision account raw (some Decision.allow) s =
      forward allow (cached_policy account s.cache) raw s
  handle_decision account raw (some Decision.deny) s = block deny raw s
  handle_decision account raw (some (Decision.limit rule_id limit_count window)) s =
      let (granted, next) = cp.record_quota account rule_id limit_count window s.control in
      limited (cached_policy account s.cache) raw granted (record s { control = next })

  unfoldable pub decision_for : Text → Text → Pipeline cp → Option Decision
  decision_for account qname s =
      evaluate (cached_rules (cached_policy account s.cache)) qname
        (λ cat. contains s.categories qname cat)

  unfoldable pub handle_inner : Text → List ℕ → Pipeline cp → Step
  unfolding query_name
  handle_inner account raw s = elim (query_name raw) [
    | err e ↦ (error, failure (message e), s)
    | ok qname ↦ handle_decision account raw (decision_for account qname s) s
  ]

  -- The outcome is only recorded.
  unfoldable pub handle_query : Text → List ℕ → Pipeline cp → Answer × Pipeline cp
  unfolding handle_inner
  handle_query account raw s =
      let (outcome, answer, next) = handle_inner account raw s in (answer, next)
