-- ===== src/Upstream.antt =====
-- lib/upstream.rs: the pool of upstream transports, one for each distinct address. An `Arc` is
-- modelled with a serial number, which a new transport gets when it is made: two `Arc`s are the same
-- pointer where their serials agree.
pub mod Sharing
use brdns.Prelude.{
  ℕ, ◌+◌, Bool, true, false, ◌&&◌, ◌≡◌, ◌↔◌, Option, none, some, List, [], ◌∷◌, arith, ◌==◌,
}
use brdns.Prelude.Text.{Text, text_eq, text_eq_iff}
use brdns.Prelude.Maps.{Eq, lookup, insert}
use brdns.Model.{Upstream, UpstreamProtocol}

-- What a transport is made of; its connection is the network's.
pub data Transport : Type 0 where
  dot : Text → ℕ → Transport
  doh : Text → ℕ → Option Text → Transport
  udp : Text → ℕ → Transport

-- `Arc<dyn Transport>`
pub record Shared : Type 0 where
  pub serial : ℕ
  pub transport : Transport

pub record PoolKey : Type 0 where
  pub protocol : UpstreamProtocol
  pub host : Text
  pub port : ℕ
  pub addr : Option Text

abbrev protocol_beq : UpstreamProtocol → UpstreamProtocol → Bool
protocol_beq UpstreamProtocol.dot UpstreamProtocol.dot = true
protocol_beq UpstreamProtocol.doh UpstreamProtocol.doh = true
protocol_beq UpstreamProtocol.udp UpstreamProtocol.udp = true
protocol_beq _ _ = false

abbrev addr_beq : Option Text → Option Text → Bool
addr_beq none none = true
addr_beq none (some b) = false
addr_beq (some a) none = false
addr_beq (some a) (some b) = text_eq a b

abbrev pub key_beq : PoolKey → PoolKey → Bool
key_beq k j =
    protocol_beq k.protocol j.protocol
    && (text_eq k.host j.host && (k.port == j.port && addr_beq k.addr j.addr))

protocol_beq_iff : (p q : UpstreamProtocol) → (protocol_beq p q ≡ true) ↔ (p ≡ q)
protocol_beq_iff p q = ground arith

addr_beq_iff : (a b : Option Text) → (addr_beq a b ≡ true) ↔ (a ≡ b)
addr_beq_iff none none = ground arith
addr_beq_iff none (some b) = ground arith
addr_beq_iff (some a) none = ground arith
addr_beq_iff (some a) (some b) = ground (arith, text_eq_iff a b)

pub key_beq_iff : (k j : PoolKey) → (key_beq k j ≡ true) ↔ (k ≡ j)
key_beq_iff k j = ground (
  arith,
  protocol_beq_iff k.protocol j.protocol,
  text_eq_iff k.host j.host,
  addr_beq_iff k.addr j.addr,
)

instance abbrev pub key_Eq : Eq PoolKey
key_Eq = record { beq = key_beq; beq_iff = key_beq_iff }

pub record UpstreamPool : Type 0 where
  pub fallback : Shared
  pub cache : List (PoolKey × Shared)
  pub next_serial : ℕ

unfoldable pub new_pool : Transport → UpstreamPool
new_pool t = record { fallback = record { serial = 0; transport = t }; cache = []; next_serial = 1 }

abbrev pub key_of : Upstream → PoolKey
key_of u = record { protocol = u.protocol; host = u.host; port = u.port; addr = u.addr }

-- The construction of a client of rustls or reqwest is not expected to fail.
unfoldable pub build_transport : Upstream → Transport
build_transport u = elim u.protocol [
  | UpstreamProtocol.dot ↦ dot u.host u.port
  | UpstreamProtocol.doh ↦ doh u.host u.port u.addr
  | UpstreamProtocol.udp ↦ udp u.host u.port
]

-- `cache.entry(key).or_insert_with(..)`
unfoldable pub get_transport : Upstream → UpstreamPool → Shared × UpstreamPool
get_transport u pool = elim (lookup (key_of u) pool.cache) [
  | some t ↦ (t, pool)
  | none ↦
      let t : Shared = record { serial = pool.next_serial; transport = build_transport u } in
      (
        t,
        record pool { cache = insert (key_of u) t pool.cache; next_serial = pool.next_serial + 1 },
      )
]
