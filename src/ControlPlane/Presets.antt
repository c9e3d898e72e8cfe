-- ===== src/ControlPlane/Presets.antt =====
-- `preset_upstreams_default` of lib/controlplane/mod.rs.
use brdns.Prelude.{none, some, List, [], ◌∷◌}
use brdns.Prelude.Text.{bytes}
use brdns.Model.{NewUpstream, dot, doh}

unfoldable pub preset_upstreams_default : List NewUpstream
preset_upstreams_default =
    record {
      name = bytes "cloudflare-dot";
      protocol = dot;
      host = bytes "1.1.1.1";
      port = 853;
      addr = none;
    }
    ∷ record {
      name = bytes "cloudflare-doh";
      protocol = doh;
      host = bytes "cloudflare-dns.com";
      port = 443;
      addr = some (bytes "1.1.1.1:443");
    }
    ∷ record {
      name = bytes "quad9-dot";
      protocol = dot;
      host = bytes "9.9.9.9";
      port = 853;
      addr = none;
    }
    ∷ record {
      name = bytes "quad9-doh";
      protocol = doh;
      host = bytes "dns.quad9.net";
      port = 443;
      addr = some (bytes "9.9.9.9:443");
    }
    ∷ []
