-- ===== src/Config.antt =====
-- lib/config.rs: the settings and their defaults. Reading them from files and the environment is the
-- crate config. `PolicyConfig` stands with the block policy.
use brdns.Prelude.{ℕ, Bool, false, Option, none, some, List, [], ◌∷◌}
use brdns.Prelude.Text.{Text, bytes}
use brdns.Blocking.{BlockResponse, PolicyConfig}

pub record ServerConfig : Type 0 where
  pub domain : Text
  pub fallback_account : Text

pub record DotConfig : Type 0 where
  pub listen_port : ℕ
  pub upstream_host : Text
  pub upstream_port : ℕ

pub record DohConfig : Type 0 where
  pub listen_port : ℕ
  pub upstream_host : Text
  pub upstream_addr : Text

pub record ControlPlaneConfig : Type 0 where
  pub enabled : Bool
  pub listen_addr : Text
  pub database_url : Option Text
  pub policy_refresh_secs : ℕ
  pub api_token : Option Text

pub record FeedConfig : Type 0 where
  pub name : Text
  pub url : Text
  pub format : Text
  pub categories : List Text

pub record BlocklistConfig : Type 0 where
  pub enabled : Bool
  pub refresh_interval_secs : ℕ
  pub feeds : List FeedConfig

pub record ObservabilityConfig : Type 0 where
  pub metrics_addr : Text
  pub otel_endpoint : Option Text

pub record UdpConfig : Type 0 where
  pub server : Text
  pub port : ℕ

pub record CertGenConfig : Type 0 where
  pub subject_cn : Text
  pub subject_alt_names : List Text
  pub days : ℕ
  pub key_bits : ℕ

pub record CertsConfig : Type 0 where
  pub cert_path : Option Text
  pub key_path : Option Text
  pub in_mem : Bool
  pub generate : CertGenConfig

pub record Settings : Type 0 where
  pub server : ServerConfig
  pub dot : DotConfig
  pub doh : DohConfig
  pub control_plane : ControlPlaneConfig
  pub blocklist : BlocklistConfig
  pub policy : PolicyConfig
  pub observability : ObservabilityConfig
  pub udp : UdpConfig
  pub certs : CertsConfig

abbrev pub default_server : ServerConfig
default_server = record { domain = bytes "dns.example.com"; fallback_account = bytes "default" }

abbrev pub default_dot : DotConfig
default_dot = record { listen_port = 8853; upstream_host = bytes "1.1.1.1"; upstream_port = 853 }

abbrev pub default_doh : DohConfig
default_doh = record {
  listen_port = 6188;
  upstream_host = bytes "cloudflare-dns.com";
  upstream_addr = bytes "1.1.1.1:443";
}

abbrev pub default_control_plane : ControlPlaneConfig
default_control_plane = record {
  enabled = false;
  listen_addr = bytes "127.0.0.1:8080";
  database_url = none;
  policy_refresh_secs = 30;
  api_token = none;
}

abbrev pub default_blocklist : BlocklistConfig
default_blocklist = record { enabled = false; refresh_interval_secs = 86400; feeds = [] }

abbrev pub default_policy : PolicyConfig
default_policy = record {
  block_response = BlockResponse.nxdomain;
  custom_ipv4 = bytes "0.0.0.0";
  custom_ipv6 = bytes "::";
}

abbrev pub default_observability : ObservabilityConfig
default_observability = record {
  metrics_addr = bytes "0.0.0.0:9091";
  otel_endpoint = some (bytes "http://127.0.0.1:4318/v1/traces");
}

abbrev pub default_udp : UdpConfig
default_udp = record { server = bytes "8.8.8.8"; port = 53 }

abbrev pub default_generate : CertGenConfig
default_generate = record {
  subject_cn = bytes "localhost";
  subject_alt_names = bytes "DNS:localhost" ∷ bytes "IP:127.0.0.1" ∷ [];
  days = 365;
  key_bits = 2048;
}

abbrev pub default_settings : Settings
default_settings = record {
  server = default_server;
  dot = default_dot;
  doh = default_doh;
  control_plane = default_control_plane;
  blocklist = default_blocklist;
  policy = default_policy;
  observability = default_observability;
  udp = default_udp;
  certs = record { cert_path = none; key_path = none; in_mem = false; generate = default_generate };
}
