-- ===== src/Tests/Queries.antt =====
-- Queries through lib/pipeline.rs and a connection of lib/receiver/dot.rs.
use brdns.Prelude.{ℕ, ◌≡◌, refl, true, Option, none, some, List, [], ◌∷◌, arith}
use brdns.Prelude.Int.{pos}
use brdns.Prelude.Text.{Text, bytes, lower_byte, to_ascii_lowercase}
use brdns.Prelude.Maps.{lookup}
use brdns.Model.{Rule, Action, TargetType, Window, AccountPolicy}
use brdns.Buffer.{ok}
use brdns.Blocking.{parse, synthesize}
use brdns.Categories.{contains}
use brdns.RuleEngine.{Decision, evaluate}
use brdns.RuleEngine.FirstMatch.{evaluate-some_iff}
use brdns.Upstream.{Transport, Shared, new_pool}
use brdns.Policy.{cached_policy}
use brdns.ControlPlane.{ControlPlane}
use brdns.ControlPlane.InMem.{default, count_at}
use brdns.ControlPlane.Service.{in_mem}
use brdns.Pipeline.{
  Pipeline, deny, limit_exceeded, query_name, handle_inner, handle_query, handle_decision,
  decision_for, cached_rules, synthesized, response, forward, transport_for,
}
use brdns.Pipeline.Effects.{
  IsServed, charged, handle_inner-IsServed, handle_inner-control, handle_inner_used_up,
}
use brdns.Pipeline.Budget.{Query, IsLimited, messages, ask_all, ask_all-messages}
use brdns.Quota.{window_start}
use brdns.Receiver.Dot.{frame, process_new}
use brdns.Receiver.Dot.Frames.{frames, process_new-frames, process_new_ended}
use brdns.Tests.Data.{ascii, query, rule, example_com, custom_policy}
use brdns.Tests.Clock.{clock}

abbrev pub control_plane : ControlPlane
control_plane = in_mem ⦃c = clock⦄ (pos 0)

-- An upstream that answers three bytes.
abbrev pub network : Shared → List ℕ → Option (List ℕ)
network t raw = some (1 ∷ 2 ∷ 3 ∷ [])

-- One account denies example.com, and one has no budget for it.
abbrev pub policies : List (Text × AccountPolicy)
policies =
    (
      bytes "1",
      record {
        rules = rule 1 Action.deny TargetType.domain example_com none ∷ [];
        upstream = none;
      },
    )
    ∷ (
      bytes "2",
      record {
        rules = rule 2 Action.limit TargetType.domain example_com none ∷ [];
        upstream = none;
      },
    )
    ∷ []

abbrev pub start : Pipeline control_plane
start = record {
  control = default;
  categories = record { map = [] };
  upstreams = new_pool (Transport.udp (bytes "8.8.8.8") 53);
  policy = custom_policy;
  cache = record { inner = policies };
  sent = [];
}

named : query_name query ≡ ok example_com
unfolding query_name parse lower_byte to_ascii_lowercase
named = refl

handle_inner-IsServed_example :
    IsServed control_plane network
      (bytes "2")
      query
      start
      (query_name query)
      (handle_inner control_plane network (bytes "2") query start)
handle_inner-IsServed_example = handle_inner-IsServed control_plane network (bytes "2") query start

handle_inner-control_example :
    (handle_inner control_plane network (bytes "2") query start).2.control
    ≡ charged control_plane network
        (bytes "2")
        (decision_for control_plane network (bytes "2") example_com start)
        start.control
handle_inner-control_example =
    handle_inner-control control_plane network (bytes "2") query example_com start named

limited_name :
    decision_for control_plane network (bytes "2") example_com start
    ≡ some (Decision.limit 2 (pos 0) Window.day)
unfolding decision_for cached_rules cached_policy evaluate lower_byte lookup
limited_name = refl

-- No budget: the policy answers.
no_budget :
    handle_inner control_plane network (bytes "2") query start
    ≡ (limit_exceeded, synthesized (synthesize query start.policy), start)
no_budget =
    handle_inner_used_up control_plane network (bytes "2") query example_com 2 (pos 0) Window.day
      start named limited_name refl

-- An account without a policy: its queries are forwarded.
forwarded :
    handle_query control_plane network (bytes "3") query start
    ≡ (response (1 ∷ 2 ∷ 3 ∷ []), record start { sent = (start.upstreams.fallback, query) ∷ [] })
unfolding handle_query query_name handle_decision parse decision_for cached_rules cached_policy
    evaluate forward lower_byte lookup to_ascii_lowercase transport_for
forwarded = refl

process_new-frames_example :
    process_new control_plane network 2 (bytes "3") (frames (query ∷ [])) start ≡ record {
      output = frames ((1 ∷ 2 ∷ 3 ∷ []) ∷ []);
      state = record start { sent = (start.upstreams.fallback, query) ∷ [] };
      ended = true;
    }
process_new-frames_example =
    process_new-frames control_plane network 2 (bytes "3") (query ∷ []) ((1 ∷ 2 ∷ 3 ∷ []) ∷ [])
      start (record start { sent = (start.upstreams.fallback, query) ∷ [] }) (omega arith)
      (omega arith, tt) (_, forwarded, refl)

process_new_ended_example :
    (process_new control_plane network 32 (bytes "3") (frame query) start).ended ≡ true
unfolding frame
process_new_ended_example =
    process_new_ended control_plane network 32 (bytes "3") (frame query) start (omega arith)

-- An account with a budget of one a day for example.com, and two queries of it on one day.
abbrev budgeted : Rule
budgeted = rule 3 Action.limit TargetType.domain example_com (some (pos 1))

abbrev on_budget : Pipeline control_plane
on_budget = record start {
  cache = record { inner = (bytes "4", record { rules = budgeted ∷ []; upstream = none }) ∷ [] };
}

abbrev asked : Query
asked = record { now = pos 5; raw = query }

asked-IsLimited :
    IsLimited ⦃c = clock⦄ network (bytes "4") on_budget.categories on_budget.cache 3 1 (pos 5) asked
unfolding window_start cached_rules cached_policy evaluate lower_byte lookup
asked-IsLimited = record {
  qname = example_com;
  window = Window.day;
  named = named;
  decided =
      (evaluate-some_iff example_com (λ cat. contains on_budget.categories example_com cat)
          (cached_rules (cached_policy (bytes "4") on_budget.cache))
          (Decision.limit 3 (pos 1) Window.day)).0
        refl;
  started = refl;
}

ask_all-messages_example :
    messages ⦃c = clock⦄ network
      (bytes "4")
      (ask_all ⦃c = clock⦄ network (bytes "4") (asked ∷ asked ∷ []) on_budget)
    ≡ query ∷ []
unfolding default count_at lookup
ask_all-messages_example =
    ask_all-messages ⦃c = clock⦄ network (bytes "4") (asked ∷ asked ∷ []) 3 1 (pos 5) on_budget
      (asked-IsLimited, (asked-IsLimited, tt))
