-- ===== src/System/Served.antt =====
-- How long bin/s.rs takes to serve by new rules.
use brdns.Prelude.{
  ℕ, ◌-◌, ◌≡◌, refl, ap, ◌∙◌, ◌&&◌, Option, List, [], ◌∷◌, ◌++◌, leb, All, Bool-cases, inl, inr,
}
use brdns.Prelude.Int.{pos}
use brdns.Prelude.Text.{Text}
use brdns.Model.{Rule, NewRule}
use brdns.Buffer.Qname.{Unicode}
use brdns.Blocklist.{Fetched}
use brdns.Upstream.{Shared}
use brdns.Quota.{Chrono}
use brdns.Policy.{cached_policy}
use brdns.Policy.Refresh.{cached_rules-refresh}
use brdns.ControlPlane.InMem.{rules, replace_rules}
use brdns.ControlPlane.InMem.Accounts.{HasAccounts, replace_rules-HasAccounts}
use brdns.ControlPlane.InMem.Rules.{replace_rules-IsReplaced}
use brdns.Pipeline.{cached_rules}
use brdns.Blocking.{BlockPolicy}
use brdns.Config.{Settings}
use brdns.System.{
  Server, Event, polled, managed, asked, interval_of, refreshed, ingested, poll, pipeline, step,
  run,
}
use brdns.System.Kept.{IsKept, IsKept-same}
use brdns.System.Events.{IsOther, router-IsKept, handle_query-accounts, ingest-accounts}

-- Any event but a request that stores rules for the account.
abbrev pub IsOtherEvent : Text → Event → Type 0
IsOtherEvent number (polled now instant fetched) = Unit
IsOtherEvent number (managed header request) = IsOther number request
IsOtherEvent number (asked protocol now account raw) = Unit

-- The account has the rules, and queries of it are decided by them.
unfoldable pub HasRules : Text → List Rule → Server → Type 0
HasRules number out server = HasAccounts server.inner × (rules number server.inner ≡ out)

abbrev pub decided_by : Text → Server → List Rule
decided_by number server = cached_rules (cached_policy number server.cache)

module _ ⦃c : Chrono⦄ where
  poll-cache :
      (settings : Settings) (now instant : ℕ) (fetched : List Fetched) (server : Server)
      → (poll settings now instant fetched server).cache ≡ (refreshed now server).cache
  unfolding poll ingested
  poll-cache settings now instant fetched server =
      elim (Bool-cases (
        settings.blocklist.enabled
        && leb (interval_of settings) (instant - server.last_blocklist))) [
          | inl e ↦ rw (e, poll) refl
          | inr e ↦ rw (e, poll) refl
        ]

  poll-accounts :
      (settings : Settings) (now instant : ℕ) (fetched : List Fetched) (server : Server)
      → (poll settings now instant fetched server).inner.accounts ≡ server.inner.accounts
  unfolding poll ingested refreshed
  poll-accounts settings now instant fetched server =
      elim (Bool-cases (
        settings.blocklist.enabled
        && leb (interval_of settings) (instant - server.last_blocklist))) [
          | inl e ↦ rw (e, poll) (ingest-accounts (pos now) fetched server.inner server.index)
          | inr e ↦ rw (e, poll) refl
        ]

  module _ ⦃u : Unicode⦄ (settings : Settings) (policy : BlockPolicy)
      (to_str : List ℕ → Option Text) (network : Shared → List ℕ → Option (List ℕ)) where
    step-IsKept :
        (number : Text) (event : Event) (server : Server)
        → IsOtherEvent number event
        → IsKept number server.inner (step settings policy to_str network event server).inner
    unfolding step pipeline
    step-IsKept number (polled now instant fetched) server h =
        IsKept-same number _ _ (poll-accounts settings now instant fetched server)
    step-IsKept number (managed header request) server h =
        router-IsKept to_str settings.control_plane.api_token header number request server.inner h
    step-IsKept number (asked protocol now account raw) server h =
        IsKept-same number _ _ (
          handle_query-accounts network (pos now) account raw (pipeline protocol policy now server))

    step-HasRules :
        (number : Text) (out : List Rule) (event : Event) (server : Server)
        → IsOtherEvent number event
        → HasRules number out server
        → HasRules number out (step settings policy to_str network event server)
    unfolding HasRules IsKept
    step-HasRules number out event server h w =
        let k = step-IsKept number event server h in (k.0 w.0, k.1 ∙ w.1)

    -- A poll brings the cache up to date; no other event changes what queries are decided by.
    step-decided_by :
        (number : Text) (out : List Rule) (event : Event) (server : Server)
        → HasRules number out server
        → decided_by number server ≡ out
        → decided_by number (step settings policy to_str network event server) ≡ out
    unfolding step HasRules refreshed
    step-decided_by number out (polled now instant fetched) server w d =
        ap (λ cache. cached_rules (cached_policy number cache))
          (poll-cache settings now instant fetched server)
        ∙ cached_rules-refresh (pos now) number server.inner server.cache w.0
        ∙ w.1
    step-decided_by number out (managed header request) server w d = d
    step-decided_by number out (asked protocol now account raw) server w d = d

    polled-decided_by :
        (number : Text) (out : List Rule) (now instant : ℕ) (fetched : List Fetched)
        (server : Server)
        → HasRules number out server
        → decided_by number
            (step settings policy to_str network (polled now instant fetched) server)
          ≡ out
    unfolding step HasRules refreshed
    polled-decided_by number out now instant fetched server w =
        ap (λ cache. cached_rules (cached_policy number cache))
          (poll-cache settings now instant fetched server)
        ∙ cached_rules-refresh (pos now) number server.inner server.cache w.0
        ∙ w.1

    run-HasRules :
        (number : Text) (out : List Rule) (events : List Event) (server : Server)
        → All (IsOtherEvent number) events
        → HasRules number out server
        → HasRules number out (run settings policy to_str network events server)
    unfolding run
    run-HasRules number out [] server h w = w
    run-HasRules number out (event ∷ events) server h w =
        run-HasRules number out events _ h.1 (step-HasRules number out event server h.0 w)

    run-decided_by :
        (number : Text) (out : List Rule) (events : List Event) (server : Server)
        → All (IsOtherEvent number) events
        → HasRules number out server
        → decided_by number server ≡ out
        → decided_by number (run settings policy to_str network events server) ≡ out
    unfolding run
    run-decided_by number out [] server h w d = d
    run-decided_by number out (event ∷ events) server h w d =
        run-decided_by number out events _ h.1 (step-HasRules number out event server h.0 w)
          (step-decided_by number out event server w d)

    run-append :
        (front back : List Event) (server : Server)
        → run settings policy to_str network (front ++ back) server
          ≡ run settings policy to_str network back
              (run settings policy to_str network front server)
    unfolding run
    run-append [] back server = refl
    run-append (event ∷ front) back server = run-append front back _

    -- Where the accounts of the control plane in memory are told apart and rules are stored for
    -- one, its queries are decided by them from the next poll on, whatever queries, polls and
    -- requests come in front of that poll and behind it, as long as no request stores rules for
    -- the account.
    pub run-replace_rules :
        (number : Text) (new : List NewRule) (server : Server) (front back : List Event)
        (now instant : ℕ) (fetched : List Fetched)
        → HasAccounts server.inner
        → All (IsOtherEvent number) front
        → All (IsOtherEvent number) back
        → decided_by number (
            run settings policy to_str network
              (front ++ (polled now instant fetched ∷ back))
              (record server { inner = (replace_rules number new server.inner).1 }))
          ≡ (replace_rules number new server.inner).0
    unfolding HasRules
    run-replace_rules number new server front back now instant fetched w f b =
        let out = (replace_rules number new server.inner).0 in
        let stored : Server = record server { inner = (replace_rules number new server.inner).1 } in
        let has : HasRules number out stored = (
          replace_rules-HasAccounts number new server.inner w,
          (replace_rules-IsReplaced number new server.inner).stored,
        ) in
        let before = run-HasRules number out front stored f has in
        let s = run settings policy to_str network front stored in
        ap (decided_by number) (run-append front (polled now instant fetched ∷ back) stored)
        ∙ unfold run in
          run-decided_by number out back
            (step settings policy to_str network (polled now instant fetched) s) b
            (step-HasRules number out (polled now instant fetched) s tt before)
            (polled-decided_by number out now instant fetched s before)
