-- ===== src/Tests/Events.antt =====
-- Requests and events of the server: the management API, DoH and the poll loop.
use brdns.Prelude.{ℕ, ◌≡◌, refl, Option, none, some, List, [], ◌∷◌, ◌++◌, arith}
use brdns.Prelude.Text.{Text, bytes}
use brdns.Model.{Action, TargetType, NewRule}
use brdns.ControlPlane.InMem.{default, replace_rules}
use brdns.ControlPlane.InMem.Accounts.{default-HasAccounts}
use brdns.Upstream.{Transport, new_pool}
use brdns.Policy.{new_cache}
use brdns.Http.Auth.{put_rules, put_upstreams, router, dispatch}
use brdns.Http.Guard.{IsGuarded, router-IsGuarded}
use brdns.Receiver.Doh.Request as Doh
use brdns.Receiver.Doh.Methods.{request_filter-get_post}
use brdns.Config.{Settings, default_settings, default_control_plane}
use brdns.System.{ReceiverProtocol, Server, polled, managed, asked, run}
use brdns.System.Served.{decided_by, run-replace_rules}
use brdns.Tests.Data.{ascii, query, example_com, new_rule, custom_policy}
use brdns.Tests.Clock.{clock}
use brdns.Tests.Queries.{control_plane, network, start}

abbrev number : Text
number = bytes "1234"

abbrev blocked : List NewRule
blocked = new_rule Action.deny TargetType.domain example_com ∷ []

abbrev to_str : List ℕ → Option Text
to_str value = some value

-- One byte of the token is another.
router-IsGuarded_example :
    IsGuarded to_str
      (some (bytes "secret"))
      (some (bytes "Bearer secreT"))
      default
      (router to_str
        (some (bytes "secret"))
        (some (bytes "Bearer secreT"))
        (put_rules number blocked)
        default)
      (dispatch (put_rules number blocked) default)
router-IsGuarded_example =
    router-IsGuarded to_str (some (bytes "secret")) (some (bytes "Bearer secreT"))
      (put_rules number blocked) default refl

-- A decoder that knows one text.
abbrev base64 : Doh.UrlSafeNoPad
base64 = record { decode = λ t. some query }

abbrev lossy : List ℕ → Text
lossy t = t

request_filter-get_post_example :
    Doh.request_filter base64 lossy control_plane network
      (some (bytes "1.dns.test"))
      (bytes "dns.test")
      (bytes "0")
      (record {
        method = Doh.get;
        query = some (bytes "dns=" ++ bytes "EjQB-_");
        read = Doh.no_body;
      })
      start
    ≡ Doh.request_filter base64 lossy control_plane network
        (some (bytes "1.dns.test"))
        (bytes "dns.test")
        (bytes "0")
        (record { method = Doh.post; query = none; read = Doh.chunk query })
        start
request_filter-get_post_example =
    request_filter-get_post base64 lossy control_plane network (some (bytes "1.dns.test"))
      (bytes "dns.test") (bytes "0") (bytes "EjQB-_") query Doh.no_body none start (λ t w. refl)
      (ground arith) refl

abbrev settings : Settings
settings = record default_settings {
  control_plane = record default_control_plane { api_token = some (bytes "secret") };
}

abbrev server : Server
server = record {
  inner = default;
  index = record { map = [] };
  cache = new_cache;
  pools = record {
    dot = new_pool (Transport.udp (bytes "8.8.8.8") 53);
    doh = new_pool (Transport.udp (bytes "8.8.8.8") 53);
  };
  last_blocklist = 0;
}

-- A query and a request with a wrong token in front of the poll, a query behind it.
run-replace_rules_example :
    decided_by number (
      run ⦃c = clock⦄ settings custom_policy to_str network
        ((asked ReceiverProtocol.dot 5 number query ∷ managed none (put_upstreams number []) ∷ [])
          ++ (polled 10 10 [] ∷ asked ReceiverProtocol.doh 11 number query ∷ []))
        (record server { inner = (replace_rules number blocked server.inner).1 }))
    ≡ (replace_rules number blocked server.inner).0
run-replace_rules_example =
    run-replace_rules ⦃c = clock⦄ settings custom_policy to_str network number blocked server
      (asked ReceiverProtocol.dot 5 number query ∷ managed none (put_upstreams number []) ∷ [])
      (asked ReceiverProtocol.doh 11 number query ∷ []) 10 10 [] default-HasAccounts (tt, (tt, tt))
      (tt, tt)
