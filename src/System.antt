-- ===== src/System.antt =====
-- bin/s.rs: the start of the server and its poll loop, over the control plane in memory, and what
-- comes in between: requests of the management API and queries of the two receivers. Locks make each of
-- them one event, and events come in any order.
pub mod Kept
pub mod Events
pub mod Served
use brdns.Prelude.{
  ℕ, ◌+◌, ◌-◌, ◌^◌, Bool, true, false, not, ◌&&◌, Option, none, some, List, [], ◌∷◌, leb, ltb,
  if◌then◌else◌,
}
use Prim.Native.Nat.{max}
use brdns.Prelude.Int.{ℤ, pos, negsuc, leb_ℤ}
use brdns.Prelude.Text.{Text}
use brdns.Buffer.Qname.{Unicode}
use brdns.Blocking.{BlockPolicy}
use brdns.Config.{Settings}
use brdns.Categories.{CategoryIndex}
use brdns.Blocklist.{Fetched, ingest, load}
use brdns.Upstream.{Shared, UpstreamPool}
use brdns.Policy.{PolicyCache, new_cache, refresh}
use brdns.Quota.{Chrono}
use brdns.ControlPlane.InMem.{Inner, last_ingestion}
use brdns.ControlPlane.Service.{in_mem}
use brdns.Pipeline.{Pipeline, handle_query}
use brdns.Http.{Reply}
use brdns.Http.Auth.{Request, Body, router}

-- The receivers, by the `protocol` that their pipelines are made with.
pub data ReceiverProtocol : Type 0 where
  dot doh : ReceiverProtocol

-- `RuntimeContext::pipeline` makes a pool for each receiver.
pub record Pools : Type 0 where
  pub dot : UpstreamPool
  pub doh : UpstreamPool

unfoldable pub pool_of : ReceiverProtocol → Pools → UpstreamPool
pool_of ReceiverProtocol.dot pools = pools.dot
pool_of ReceiverProtocol.doh pools = pools.doh

unfoldable pub with_pool : ReceiverProtocol → UpstreamPool → Pools → Pools
with_pool ReceiverProtocol.dot pool pools = record pools { dot = pool }
with_pool ReceiverProtocol.doh pool pools = record pools { doh = pool }

-- What the events share: the control plane, the index and the cache of `RuntimeContext`, the pools
-- of the receivers, and the variable `last_blocklist` of the poll loop, an `Instant` in seconds.
pub record Server : Type 0 where
  pub inner : Inner
  pub index : CategoryIndex
  pub cache : PolicyCache
  pub pools : Pools
  pub last_blocklist : ℕ

abbrev pub interval_of : Settings → ℕ
interval_of settings = max settings.blocklist.refresh_interval_secs 1

-- `now.saturating_sub(last)`, where both are times since the epoch and none is below 0.
abbrev pub age : ℕ → ℤ → ℤ
age now (pos last) = if leb last now then pos (now - last) else negsuc (last - now - 1)
age now (negsuc n) = pos (now + n + 1)

-- `interval as i64`
abbrev pub as_i64 : ℕ → ℤ
as_i64 n = if ltb n (2 ^ 63) then pos n else negsuc (2 ^ 64 - n - 1)

-- Whether the last ingestion is younger than the interval.
unfoldable pub is_fresh : Settings → ℕ → Option ℤ → Bool
is_fresh settings now none = false
is_fresh settings now (some last) = not (leb_ℤ (as_i64 (interval_of settings)) (age now last))

module _ ⦃c : Chrono⦄ where
  unfoldable pub refreshed : ℕ → Server → Server
  unfolding refresh
  refreshed now server = record server {
    cache = (refresh (in_mem (pos now)) server.inner server.cache).1;
  }

  -- `fetched` is what the feeds come back with.
  unfoldable pub ingested : ℕ → List Fetched → Server → Server
  unfolding ingest
  ingested now fetched server =
      let (n, inner, index) = ingest (pos now) fetched server.inner server.index in
      record server { inner = inner; index = index }

  -- The start: the cache, the stored categories, and the feeds where the last ingestion is old.
  unfoldable pub started : Settings → ℕ → List Fetched → Server → Server
  unfolding refreshed ingested load is_fresh last_ingestion
  started settings now fetched server =
      let cached = refreshed now (record server { cache = new_cache }) in
      let loaded : Server = record cached { index = (load cached.inner cached.index).1 } in
      if settings.blocklist.enabled && not (is_fresh settings now (last_ingestion loaded.inner))
      then ingested now fetched loaded
      else loaded

  -- One turn of the poll loop, at a time of the clock and an instant.
  unfoldable pub poll : Settings → ℕ → ℕ → List Fetched → Server → Server
  unfolding refreshed ingested
  poll settings now instant fetched server =
      let cached = refreshed now server in
      if settings.blocklist.enabled && leb (interval_of settings) (instant - server.last_blocklist)
      then record (ingested now fetched cached) { last_blocklist = instant }
      else cached

  -- The pipeline of a receiver, as `RuntimeContext::pipeline` puts it together.
  unfoldable pub pipeline :
      ReceiverProtocol → BlockPolicy → (now : ℕ) → Server → Pipeline (in_mem (pos now))
  unfolding pool_of
  pipeline protocol policy now server = record {
    control = server.inner;
    categories = server.index;
    upstreams = pool_of protocol server.pools;
    policy = policy;
    cache = server.cache;
    sent = [];
  }

-- A turn of the poll loop, a request of the management API, or a query.
pub data Event : Type 0 where
  polled : ℕ → ℕ → List Fetched → Event
  managed : Option (List ℕ) → Request → Event
  asked : ReceiverProtocol → ℕ → Text → List ℕ → Event

abbrev pub managed_inner : Inner → Option (Reply Body × Inner) → Inner
managed_inner inner none = inner
managed_inner inner (some (_, next)) = next

module _ ⦃c : Chrono⦄ ⦃u : Unicode⦄ (settings : Settings) (policy : BlockPolicy)
    (to_str : List ℕ → Option Text) (network : Shared → List ℕ → Option (List ℕ)) where
  unfoldable pub step : Event → Server → Server
  unfolding poll router handle_query pipeline with_pool
  step (polled now instant fetched) server = poll settings now instant fetched server
  step (managed header request) server = record server {
    inner =
        managed_inner server.inner
          (router to_str settings.control_plane.api_token header request server.inner);
  }
  step (asked protocol now account raw) server =
      let (answer, next) =
        handle_query (in_mem (pos now)) network account raw (pipeline protocol policy now server) in
      record server { inner = next.control; pools = with_pool protocol next.upstreams server.pools }

  unfoldable pub run : List Event → Server → Server
  unfolding step
  run [] server = server
  run (event ∷ events) server = run events (step event server)
