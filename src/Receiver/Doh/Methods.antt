-- ===== src/Receiver/Doh/Methods.antt =====
-- The two ways to send a query to lib/receiver/doh.rs.
use brdns.Prelude.{
  ℕ, ◌≡◌, refl, ap, ◌<◌, Bool, true, false, ◌&&◌, ◌||◌, Option, none, some, List, [], ◌∷◌, ◌++◌,
  arith, All, All-imp, leb, ◌==◌,
}
use brdns.Prelude.Text.{Text, bytes, split, strip_prefix}
use brdns.Buffer.Qname.{Unicode}
use brdns.Upstream.{Shared}
use brdns.ControlPlane.{ControlPlane}
use brdns.Pipeline.{Pipeline}
use brdns.Receiver.Doh.{decode_bytes, percent_decode, first_dns, dns_query_param}
use brdns.Receiver.Doh.Request.{
  UrlSafeNoPad, get, post, BodyRead, chunk, Extracted, extracted, unreadable, extract_param,
  extract_query, request_filter,
}

-- A character of the alphabet.
abbrev pub is_url_safe : ℕ → Bool
is_url_safe c =
    (leb b'0' c && leb c b'9')
    || ((leb b'a' c && leb c b'z') || ((leb b'A' c && leb c b'Z') || (c == b'-' || c == b'_')))

abbrev pub IsUrlSafe : Text → Type 0
IsUrlSafe s = All (λ c. is_url_safe c ≡ true) s

decode_bytes_plain : (s : Text) → All (λ c. (c == b'%') ≡ false) s → decode_bytes s ≡ some s
unfolding decode_bytes
decode_bytes_plain [] h = refl
decode_bytes_plain (c ∷ []) h = refl
decode_bytes_plain (c ∷ a ∷ []) h = refl
decode_bytes_plain (c ∷ a ∷ b ∷ rest) h =
    rw (h.0, decode_bytes_plain (a ∷ b ∷ rest) h.1, decode_bytes) refl

split_plain : (c : ℕ) (s : Text) → All (λ x. (x == c) ≡ false) s → split c s ≡ s ∷ []
unfolding split
split_plain c [] h = refl
split_plain c (x ∷ s) h = rw (h.0, split_plain c s h.1) refl

strip_prefix-append : (p s : Text) → strip_prefix (p ++ s) p ≡ some s
unfolding strip_prefix
strip_prefix-append [] s = refl
strip_prefix-append (x ∷ p) s = ground (arith, strip_prefix-append p s)

no_amp : (c : ℕ) → is_url_safe c ≡ true → (c == b'&') ≡ false
no_amp c h = ground (arith, h)

no_percent : (c : ℕ) → is_url_safe c ≡ true → (c == b'%') ≡ false
no_percent c h = ground (arith, h)

below_128 : (c : ℕ) → is_url_safe c ≡ true → c < 128
below_128 c h = ground (arith, h)

dns_query_param_plain :
    (s : Text) → IsUrlSafe s → dns_query_param (some (bytes "dns=" ++ s)) ≡ some s
unfolding dns_query_param first_dns
dns_query_param_plain s h =
    let e =
      split_plain b'&' (bytes "dns=" ++ s) (refl, (refl, (refl, (refl, All-imp no_amp s h)))) in
    rw (e, strip_prefix-append (bytes "dns=") s) refl

module _ (base64 : UrlSafeNoPad) (lossy : List ℕ → Text) ⦃u : Unicode⦄ (cp : ControlPlane)
    (network : Shared → List ℕ → Option (List ℕ)) where
  percent_decode_plain :
      (text : Text)
      → ((t : Text) → All (λ c. c < 128) t → lossy t ≡ t)
      → IsUrlSafe text
      → percent_decode lossy text ≡ some text
  unfolding percent_decode
  percent_decode_plain text ascii safe =
      rw (decode_bytes_plain text (All-imp no_percent text safe), percent_decode)
        (ap some (ascii text (All-imp below_128 text safe)))

  extract_param_plain :
      (text : Text) (message : List ℕ)
      → ((t : Text) → All (λ c. c < 128) t → lossy t ≡ t)
      → IsUrlSafe text
      → base64.decode text ≡ some message
      → extract_param base64 lossy (some text) ≡ extracted message
  unfolding extract_param
  extract_param_plain text message ascii safe decodes =
      rw (percent_decode_plain text ascii safe, extract_param)
        (ap
          (λ (o : Option (List ℕ)). elim o as (λ _. Extracted) [
            | none ↦ unreadable
            | some q ↦ extracted q
          ])
          decodes)

  -- A message that is sent as the `dns` parameter of a GET, in a text of the alphabet that decodes
  -- to it, is served as the same message in a POST whose body comes in one read: the reply and
  -- the state behind it are the same.
  pub request_filter-get_post :
      (sni : Option Text) (domain fallback_account text : Text) (message : List ℕ) (read : BodyRead)
      (query : Option Text) (s : Pipeline cp)
      → ((t : Text) → All (λ c. c < 128) t → lossy t ≡ t)
      → IsUrlSafe text
      → base64.decode text ≡ some message
      → request_filter base64 lossy cp network sni domain fallback_account
          (record { method = get; query = some (bytes "dns=" ++ text); read = read })
          s
        ≡ request_filter base64 lossy cp network sni domain fallback_account
            (record { method = post; query = query; read = chunk message })
            s
  unfolding request_filter extract_query
  request_filter-get_post sni domain fallback_account text message read query s ascii safe decodes =
      rw (dns_query_param_plain text safe, extract_param_plain text message ascii safe decodes) refl
