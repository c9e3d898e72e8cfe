-- ===== src/Pipeline/Budget.antt =====
-- A sequence of queries of lib/pipeline.rs that one `limit` rule decides, over the control plane in
-- memory.
use brdns.Prelude.{
  ℕ, ◌+◌, ◌-◌, ◌≤◌, ◌<◌, ◌≡◌, refl, ap, ◌∙◌, true, false, some, List, [], ◌∷◌, ◌++◌, arith, All,
  lt→leb, take, leb, sym, map, append-nil, append_assoc, zero, suc, inl, inr, Bool-cases, Option,
}
use mathlib.Core.List.{map-append}
use brdns.Prelude.Int.{ℤ, pos}
use brdns.Prelude.Text.{Text}
use brdns.Prelude.Maps.{pair_eq}
use brdns.Model.{Window}
use brdns.Buffer.{ok}
use brdns.Buffer.Qname.{Unicode}
use brdns.Categories.{CategoryIndex, contains}
use brdns.RuleEngine.{Decision}
use brdns.RuleEngine.FirstMatch.{IsDecidedBy, evaluate-some_iff}
use brdns.Upstream.{Shared}
use brdns.Policy.{PolicyCache, cached_policy}
use brdns.Quota.{Chrono, window_start}
use brdns.ControlPlane.{done}
use brdns.ControlPlane.InMem.{Inner, count_at, charge, record_quota}
use brdns.ControlPlane.InMem.QuotaCount.{
  stored, count_at-stored, charge_under, charge_over, pair_refl,
}
use brdns.ControlPlane.Service.{record_at, record_quota_used_up, in_mem}
use brdns.Pipeline.{
  Pipeline, cached_rules, query_name, forward, block, limited, handle_decision, decision_for,
  handle_inner, handle_query,
}
use brdns.Pipeline.Effects.{handle_inner_named}

-- A query and the time of the clock that it comes at.
pub record Query : Type 0 where
  pub now : ℤ
  pub raw : List ℕ

module _ ⦃c : Chrono⦄ where
  -- The same pipeline at another time of the clock.
  abbrev pub at : (m n : ℤ) → Pipeline (in_mem m) → Pipeline (in_mem n)
  at m n s = record {
    control = s.control;
    categories = s.categories;
    upstreams = s.upstreams;
    policy = s.policy;
    cache = s.cache;
    sent = s.sent;
  }

  charged_by :
      (now : ℤ) (id limit : ℕ) (w : Window) (start : ℤ) (inner : Inner)
      → window_start now w ≡ some start
      → leb limit 0 ≡ false
      → record_quota now id (pos limit) w inner ≡ some (charge (id, start) (pos limit) inner)
  unfolding record_quota
  charged_by now id limit w start inner h k = rw (k, h, record_quota)

  grant_under :
      (now : ℤ) (account : Text) (id limit : ℕ) (w : Window) (start : ℤ) (inner : Inner)
      → window_start now w ≡ some start
      → count_at (id, start) inner < limit
      → record_at now account id (pos limit) w inner
        ≡ (done true, stored (id, start) (count_at (id, start) inner + 1) inner)
  grant_under now account id limit w start inner h k =
      let e = charged_by now id limit w start inner h (lt→leb limit 0 (omega (arith, k))) in
      let g = e ∙ ap some (charge_under (id, start) limit inner k) in rw (record_at, g)

  -- A refusal keeps the count.
  refuse_over :
      (now : ℤ) (account : Text) (id limit : ℕ) (w : Window) (start : ℤ) (inner : Inner)
      → window_start now w ≡ some start
      → limit ≤ count_at (id, start) inner
      → (next : Inner) × (record_at now account id (pos limit) w inner ≡ (done false, next))
        × (count_at (id, start) next ≡ count_at (id, start) inner)
  refuse_over now account id limit w start inner h k = elim (Bool-cases (leb limit 0)) [
    | inl e ↦
        let g = record_quota_used_up now id (pos limit) w inner e in
        (inner, rw (record_at, g), refl)
    | inr e ↦
        let count = count_at (id, start) inner in
        let g =
          charged_by now id limit w start inner h e
          ∙ ap some (charge_over (id, start) limit inner k) in
        (
          stored (id, start) count inner,
          rw (record_at, g),
          count_at-stored (id, start) (id, start) count inner ∙ rw (pair_refl (id, start)),
        )
  ]

  module _ ⦃u : Unicode⦄ (network : Shared → List ℕ → Option (List ℕ)) (account : Text) where
    handle_query-limited :
        (now : ℤ) (raw : List ℕ) (qname : Text) (id : ℕ) (n : ℤ) (w : Window)
        (s : Pipeline (in_mem now))
        → query_name raw ≡ ok qname
        → IsDecidedBy qname
            (λ cat. contains s.categories qname cat)
            (cached_rules (cached_policy account s.cache))
            (Decision.limit id n w)
        → (handle_query (in_mem now) network account raw s).1
          ≡ (limited
              (in_mem now)
              network
              (cached_policy account s.cache)
              raw
              (record_at now account id n w s.control).0
              (record s { control = (record_at now account id n w s.control).1 })).2
    unfolding handle_query handle_decision decision_for
    handle_query-limited now raw qname id n w s h d =
        let e =
          (evaluate-some_iff qname (λ cat. contains s.categories qname cat)
              (cached_rules (cached_policy account s.cache)) (Decision.limit id n w)).1
            d in
        let decided : handle_inner (in_mem now) network account raw s
            ≡ handle_decision (in_mem now) network account raw (some (Decision.limit id n w)) s =
          handle_inner_named (in_mem now) network account raw qname s h ∙ rw e in
        ap (λ step. step.2) decided

    abbrev pub State : Type 0
    State = Pipeline (in_mem (pos 0))

    -- One query at its time.
    unfoldable pub ask : Query → State → State
    unfolding handle_query
    ask q s =
        at q.now (pos 0) (handle_query (in_mem q.now) network account q.raw (at (pos 0) q.now s)).1

    unfoldable pub ask_all : List Query → State → State
    unfolding ask
    ask_all [] s = s
    ask_all (q ∷ qs) s = ask_all qs (ask q s)

    -- The messages that have left for an upstream, in order.
    abbrev pub messages : State → List (List ℕ)
    messages s = map (λ m. m.1) s.sent

    -- The rule `id` with the budget `limit` decides the query, in the window that begins at `start`.
    pub record IsLimited (categories : CategoryIndex) (cache : PolicyCache) (id limit : ℕ)
        (start : ℤ) (q : Query) : Type 0 where
      pub qname : Text
      pub window : Window
      pub named : query_name q.raw ≡ ok qname
      pub decided :
          IsDecidedBy qname
            (λ cat. contains categories qname cat)
            (cached_rules (cached_policy account cache))
            (Decision.limit id (pos limit) window)
      pub started : window_start q.now window ≡ some start

    -- What a query does to the messages and to the count of the rule.
    record IsAsked (key : ℕ × ℤ) (out : List (List ℕ)) (more : ℕ) (s t : State) : Type 0 where
      categories : t.categories ≡ s.categories
      cache : t.cache ≡ s.cache
      left : messages t ≡ messages s ++ out
      count : count_at key t.control ≡ count_at key s.control + more

    ask-under :
        (q : Query) (id limit : ℕ) (start : ℤ) (s : State)
        → IsLimited s.categories s.cache id limit start q
        → count_at (id, start) s.control < limit
        → IsAsked (id, start) (q.raw ∷ []) 1 s (ask q s)
    unfolding ask limited forward
    ask-under q id limit start s l k =
        let now = q.now in
        let count = count_at (id, start) s.control in
        let e =
          handle_query-limited now q.raw l.qname id (pos limit) l.window (at (pos 0) now s) l.named
            l.decided in
        let g = grant_under now account id limit l.window start s.control l.started k in
        rw (e, g)
          (record {
            categories = refl;
            cache = refl;
            left = map-append (λ m. m.1) s.sent _;
            count =
                count_at-stored (id, start) (id, start) (count + 1) s.control
                ∙ rw (pair_refl (id, start));
          })

    ask-over :
        (q : Query) (id limit : ℕ) (start : ℤ) (s : State)
        → IsLimited s.categories s.cache id limit start q
        → limit ≤ count_at (id, start) s.control
        → IsAsked (id, start) [] 0 s (ask q s)
    unfolding ask limited block
    ask-over q id limit start s l k =
        let now = q.now in
        let e =
          handle_query-limited now q.raw l.qname id (pos limit) l.window (at (pos 0) now s) l.named
            l.decided in
        let (next, g, same) =
          refuse_over now account id limit l.window start s.control l.started k in
        rw (e, g)
          (record {
            categories = refl;
            cache = refl;
            left = sym (append-nil (messages s));
            count = same ∙ omega arith;
          })

    ask_all_from :
        (qs : List Query) (id limit left : ℕ) (start : ℤ) (s : State)
        → All (IsLimited s.categories s.cache id limit start) qs
        → left ≡ limit - count_at (id, start) s.control
        → messages (ask_all qs s) ≡ messages s ++ map (λ q. q.raw) (take left qs)
    unfolding ask_all
    ask_all_from [] id limit zero start s w e = sym (append-nil (messages s))
    ask_all_from [] id limit (suc left) start s w e = sym (append-nil (messages s))
    ask_all_from (q ∷ qs) id limit zero start s w e =
        let a = ask-over q id limit start s w.0 (omega (arith, e)) in
        ask_all_from qs id limit zero start (ask q s) (rw (a.categories, a.cache) w.1)
          (rw a.count (omega (arith, e)))
        ∙ rw (a.left, append-nil (messages s)) (append-nil (messages s))
    ask_all_from (q ∷ qs) id limit (suc left) start s w e =
        let a = ask-under q id limit start s w.0 (omega (arith, e)) in
        ask_all_from qs id limit left start (ask q s) (rw (a.categories, a.cache) w.1)
          (rw a.count (omega (arith, e)))
        ∙ rw (a.left, append_assoc (messages s) (q.raw ∷ []) (map (λ q. q.raw) (take left qs)))

    -- Over the control plane in memory, queries of an account come one behind the other, each at its
    -- own time of one window; their names are read, and one `limit` rule of the cached policy, with
    -- a budget of 0 or more, decides each of them. Then exactly the first ones leave for an
    -- upstream, in order and unchanged: as many as the budget has left over the count of the rule in
    -- that window. None of the others leaves.
    pub ask_all-messages :
        (qs : List Query) (id limit : ℕ) (start : ℤ) (s : State)
        → All (IsLimited s.categories s.cache id limit start) qs
        → messages (ask_all qs s)
          ≡ messages s ++ map (λ q. q.raw) (take (limit - count_at (id, start) s.control) qs)
    ask_all-messages qs id limit start s w =
        ask_all_from qs id limit (limit - count_at (id, start) s.control) start s w refl
