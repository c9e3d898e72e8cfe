-- ===== src/Upstream/Sharing.antt =====
-- Which upstreams share a transport.
use brdns.Prelude.{
  ◌+◌, ◌<◌, ◌≡◌, sym, ap, ◌↔◌, none, some, arith, Option-cases, Bool-cases, inl, inr, if◌then◌else◌,
}
use brdns.Prelude.Maps.{lookup, insert, lookup-insert, lookup-insert_self}
use brdns.Model.{Upstream}
use brdns.Upstream.{
  Transport, Shared, PoolKey, key_beq, key_beq_iff, key_Eq, UpstreamPool, new_pool, key_of,
  build_transport, get_transport,
}

-- Each serial was given out, and to one key.
pub record IsPool (pool : UpstreamPool) : Type 0 where
  pub below :
      (k : PoolKey) (t : Shared) → lookup k pool.cache ≡ some t → t.serial < pool.next_serial
  pub apart :
      (k j : PoolKey) (s t : Shared)
      → lookup k pool.cache ≡ some s
      → lookup j pool.cache ≡ some t
      → s.serial ≡ t.serial
      → k ≡ j

pub new_pool-IsPool : (t : Transport) → IsPool (new_pool t)
unfolding new_pool lookup
new_pool-IsPool t = record {
  below = λ k s h. absurd (cc h);
  apart = λ k j s r h g e. absurd (cc h);
}

abbrev made : Upstream → UpstreamPool → Shared
made u pool = record { serial = pool.next_serial; transport = build_transport u }

get_found :
    (u : Upstream) (pool : UpstreamPool) (t : Shared)
    → lookup (key_of u) pool.cache ≡ some t
    → get_transport u pool ≡ (t, pool)
unfolding get_transport
get_found u pool t e = rw (e, get_transport)

get_made :
    (u : Upstream) (pool : UpstreamPool)
    → lookup (key_of u) pool.cache ≡ none
    → get_transport u pool ≡ (
      made u pool,
      record pool {
        cache = insert (key_of u) (made u pool) pool.cache;
        next_serial = pool.next_serial + 1;
      },
    )
unfolding get_transport
get_made u pool e = rw (e, get_transport)

-- A key of the grown pool is the new one, or was there before.
lookup-made :
    (u : Upstream) (pool : UpstreamPool) (k : PoolKey)
    → lookup k (insert (key_of u) (made u pool) pool.cache)
      ≡ (if key_beq (key_of u) k then some (made u pool) else lookup k pool.cache)
lookup-made u pool k = lookup-insert (key_of u) k (made u pool) pool.cache

grown-IsPool :
    (u : Upstream) (pool : UpstreamPool)
    → IsPool pool
    → IsPool (record pool {
      cache = insert (key_of u) (made u pool) pool.cache;
      next_serial = pool.next_serial + 1;
    })
grown-IsPool u pool w = record {
  below = λ k t h. elim (Bool-cases (key_beq (key_of u) k)) [
    | inl e ↦ ground (arith, lookup-made u pool k)
    | inr e ↦ ground (arith, lookup-made u pool k, w.below k t)
  ];
  apart = λ k j s t h g e. ground (
    arith,
    lookup-made u pool k,
    lookup-made u pool j,
    w.apart k j s t,
    w.below k s,
    w.below j t,
    key_beq_iff (key_of u) k,
    key_beq_iff (key_of u) j,
  );
}

-- Each use of the pool keeps its serials apart.
get_transport-IsPool :
    (u : Upstream) (pool : UpstreamPool) → IsPool pool → IsPool (get_transport u pool).1
get_transport-IsPool u pool w = elim (Option-cases (lookup (key_of u) pool.cache)) [
  | inl e ↦ rw (get_made u pool e) (grown-IsPool u pool w)
  | inr (t, e) ↦ rw (get_found u pool t e) w
]

-- What was handed out is in the pool from then on.
pub get_transport_stored :
    (u : Upstream) (pool : UpstreamPool)
    → lookup (key_of u) (get_transport u pool).1.cache ≡ some (get_transport u pool).0
get_transport_stored u pool = elim (Option-cases (lookup (key_of u) pool.cache)) [
  | inl e ↦ rw (get_made u pool e) (lookup-insert_self (key_of u) (made u pool) pool.cache)
  | inr (t, e) ↦ rw (get_found u pool t e) e
]

-- Entries are kept.
kept :
    (u : Upstream) (pool : UpstreamPool) (k : PoolKey) (t : Shared)
    → lookup k pool.cache ≡ some t
    → lookup k (get_transport u pool).1.cache ≡ some t
kept u pool k t h = elim (Option-cases (lookup (key_of u) pool.cache)) [
  | inl e ↦ rw (get_made u pool e) (ground (arith, lookup-made u pool k, key_beq_iff (key_of u) k))
  | inr (s, e) ↦ rw (get_found u pool s e) h
]

-- A key is the four fields of the upstream.
key_of_iff :
    (u v : Upstream)
    → (key_of u ≡ key_of v)
      ↔ ((u.protocol ≡ v.protocol) × (u.host ≡ v.host) × (u.port ≡ v.port) × (u.addr ≡ v.addr))
key_of_iff u v = (
  λ e. (
    ap (λ (k : PoolKey). k.protocol) e,
    ap (λ (k : PoolKey). k.host) e,
    ap (λ (k : PoolKey). k.port) e,
    ap (λ (k : PoolKey). k.addr) e,
  ),
  λ w. rw (w.0, w.1, w.2, w.3),
)

-- Two uses of the pool, one after the other, hand out the same transport exactly where the two
-- upstreams agree in protocol, host, port and pinned address.
pub get_transport_same_iff :
    (u v : Upstream) (pool : UpstreamPool)
    → IsPool pool
    → ((get_transport u pool).0 ≡ (get_transport v (get_transport u pool).1).0)
      ↔ ((u.protocol ≡ v.protocol) × (u.host ≡ v.host) × (u.port ≡ v.port) × (u.addr ≡ v.addr))
get_transport_same_iff u v pool w =
    let next = (get_transport u pool).1 in
    let first = get_transport_stored u pool in
    let second = get_transport_stored v next in
    let (fields, key) = key_of_iff u v in
    (
      λ e. fields (
          (get_transport-IsPool v next (get_transport-IsPool u pool w)).apart (key_of u) (key_of v)
            _ _ (kept v next (key_of u) _ first) second (ap (λ (t : Shared). t.serial) e)),
      λ w.
          ap (λ (p : Shared × UpstreamPool). p.0)
            (sym (get_found v next (get_transport u pool).0 (rw (key w) at first))),
    )
