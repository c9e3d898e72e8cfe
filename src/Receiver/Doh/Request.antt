-- ===== src/Receiver/Doh/Request.antt =====
-- lib/receiver/doh.rs: one HTTP request, from its message to the pipeline and back to a status. A
-- failed write of the response is not modelled.
use brdns.Prelude.{ℕ, Option, none, some, List}
use brdns.Prelude.Text.{Text}
use brdns.Buffer.Qname.{Unicode}
use brdns.Upstream.{Shared}
use brdns.ControlPlane.{ControlPlane}
use brdns.Pipeline.{Pipeline, Answer, response, failure, handle_query}
use brdns.Receiver.Dot.{account_for}
use brdns.Receiver.Doh.{dns_query_param, percent_decode}

-- The crate base64, in its alphabet for addresses and without padding.
pub record UrlSafeNoPad : Type 0 where
  pub decode : Text → Option (List ℕ)

pub data Method : Type 0 where
  get post other : Method

-- What the one call of `read_request_body` comes back with: an error, no body, or a chunk, which is
-- the body or the front of it.
pub data BodyRead : Type 0 where
  broken no_body : BodyRead
  chunk : List ℕ → BodyRead

pub record Request : Type 0 where
  pub method : Method
  pub query : Option Text
  pub read : BodyRead

-- `panicked` is the panic of `percent_decode`.
pub data Extracted : Type 0 where
  extracted : List ℕ → Extracted
  missing unreadable panicked : Extracted

pub data HttpReply : Type 0 where
  message : List ℕ → HttpReply
  missing_query bad_query bad_gateway no_reply : HttpReply

module _ (base64 : UrlSafeNoPad) (lossy : List ℕ → Text) where
  abbrev decoded_param : Option Text → Extracted
  decoded_param none = panicked
  decoded_param (some text) = elim (base64.decode text) [ none ↦ unreadable | some q ↦ extracted q ]

  unfoldable pub extract_param : Option Text → Extracted
  unfolding percent_decode
  extract_param none = missing
  extract_param (some param) = decoded_param (percent_decode lossy param)

  -- A body that arrives in several chunks is cut behind the first.
  abbrev extract_body : BodyRead → Extracted
  extract_body broken = unreadable
  extract_body no_body = missing
  extract_body (chunk b) = extracted b

  abbrev extract_by : Method → Request → Extracted
  extract_by get request = extract_param (dns_query_param request.query)
  extract_by post request = extract_body request.read
  extract_by other request = missing

  unfoldable pub extract_query : Request → Extracted
  unfolding extract_param dns_query_param
  extract_query request = extract_by request.method request

  module _ ⦃u : Unicode⦄ (cp : ControlPlane) (network : Shared → List ℕ → Option (List ℕ)) where
    abbrev status_of : Answer → HttpReply
    status_of (response out) = message out
    status_of (failure e) = bad_gateway

    abbrev pub replied : Answer × Pipeline cp → HttpReply × Pipeline cp
    replied (answer, next) = (status_of answer, next)

    unfoldable pub serve : Text → Extracted → Pipeline cp → HttpReply × Pipeline cp
    unfolding handle_query
    serve account (extracted q) s = replied (handle_query cp network account q s)
    serve account missing s = (missing_query, s)
    serve account unreadable s = (bad_query, s)
    serve account panicked s = (no_reply, s)

    -- `sni` is the server name of the TLS handshake.
    unfoldable pub request_filter :
        Option Text → Text → Text → Request → Pipeline cp → HttpReply × Pipeline cp
    unfolding account_for extract_query serve
    request_filter sni domain fallback_account request s =
        serve (account_for sni domain fallback_account) (extract_query request) s
