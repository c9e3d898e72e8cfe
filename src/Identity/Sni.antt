-- ===== src/Identity/Sni.antt =====
-- Which hosts name an account.
use brdns.Prelude.{
  ◌≡◌, sym, ap, ◌∙◌, ◌≢◌, ◌↔◌, inl, inr, some, [], ◌∷◌, ◌++◌, arith, Option-cases, All, length,
  length-append,
}
use brdns.Prelude.Text.{
  Text, dot, text_eq_iff, trim_end, strip_suffix, strip_suffix_front, strip_suffix-append,
}
use brdns.Prelude.Trim.{is_empty_iff, contains-false_iff}
use brdns.Identity.{trim_dots, account_from_sni}

-- The host, without trailing dots, is one label, a dot and the base domain.
pub record Names (sni domain account : Text) : Type 0 where
  pub based : trim_dots domain ≢ []
  pub labelled : account ≢ []
  pub single : All (λ c. c ≢ dot) account
  pub host : trim_end dot sni ≡ account ++ (dot ∷ trim_dots domain)

longer : (account domain : Text) → account ++ (dot ∷ domain) ≢ domain
longer account domain h = omega (arith, ap length h, length-append account (dot ∷ domain))

append-ne-nil : (account domain : Text) → account ++ (dot ∷ domain) ≢ []
append-ne-nil [] domain h = cc
append-ne-nil (x ∷ account) domain h = cc

account_Names :
    (sni domain account : Text)
    → account_from_sni sni domain ≡ some account
    → Names sni domain account
unfolding account_from_sni
account_Names sni domain account h =
    elim (Option-cases (strip_suffix (trim_end dot sni) (dot ∷ trim_dots domain))) [
      | inl e ↦ absurd (ground arith)
      | inr (front, e) ↦ ground (
        arith,
        is_empty_iff (trim_dots domain),
        is_empty_iff account,
        contains-false_iff account dot,
        strip_suffix_front (trim_end dot sni) (dot ∷ trim_dots domain) {front = front} e,
      )
    ]

Names-account :
    (sni domain account : Text)
    → Names sni domain account
    → account_from_sni sni domain ≡ some account
unfolding account_from_sni
Names-account sni domain account n = ground (
  arith,
  n.host,
  n.based,
  n.labelled,
  is_empty_iff (trim_dots domain),
  is_empty_iff account,
  is_empty_iff (account ++ (dot ∷ trim_dots domain)),
  append-ne-nil account (trim_dots domain),
  longer account (trim_dots domain),
  text_eq_iff (account ++ (dot ∷ trim_dots domain)) (trim_dots domain),
  (contains-false_iff account dot).1 n.single,
  strip_suffix-append account (dot ∷ trim_dots domain),
)

-- A host names the account exactly where, without its trailing dots, it is the account, a dot and
-- the base domain, and the account is one label that is not empty, below a base that is not empty.
pub account_from_sni_iff :
    (sni domain account : Text)
    → (account_from_sni sni domain ≡ some account) ↔ Names sni domain account
account_from_sni_iff sni domain account =
    (account_Names sni domain account, Names-account sni domain account)

-- Two hosts under one base domain that name the same account are equal up to trailing dots.
pub account_from_sni_injective :
    (s t domain account : Text)
    → account_from_sni s domain ≡ some account
    → account_from_sni t domain ≡ some account
    → trim_end dot s ≡ trim_end dot t
account_from_sni_injective s t domain account p q =
    (account_Names s domain account p).host ∙ sym (account_Names t domain account q).host
