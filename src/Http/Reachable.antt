-- ===== src/Http/Reachable.antt =====
-- The account numbers that the management API lets in, against lib/identity.rs.
use brdns.Prelude.{
  ◌≡◌, ◌≢◌, sym, ap, ◌∙◌, true, some, [], ◌∷◌, ◌++◌, arith, All, Bool-cases, inl, inr,
}
use brdns.Prelude.Text.{Text, dot, is_empty, trim_end, trim_start}
use brdns.Prelude.Trim.{trim_end_idem, trim_end-append}
use brdns.Model.{Account}
use brdns.Model.Input.{is_valid_account_number, all_account_chars}
use brdns.Identity.{account_from_sni, trim_dots}
use brdns.Identity.Sni.{account_from_sni_iff}
use brdns.ControlPlane.InMem as InMem
use brdns.Http.{reply, create_account_number, created}

no_dots : (s : Text) → all_account_chars s ≡ true → All (λ c. c ≢ dot) s
unfolding all_account_chars
no_dots [] h = tt
no_dots (c ∷ s) h = (ground arith, no_dots s (ground arith))

create_account_valid :
    (number : Text) (account : Account) (inner next : InMem.Inner)
    → create_account_number number inner ≡ (reply created account, next)
    → is_valid_account_number number ≡ true
unfolding create_account_number
create_account_valid number account inner next h =
    elim (Bool-cases (is_valid_account_number number)) [ inl e ↦ e | inr e ↦ absurd (ground arith) ]

domain_trimmed : (domain : Text) → trim_dots domain ≡ domain → trim_end dot domain ≡ domain
unfolding trim_dots
domain_trimmed domain d = ap (trim_end dot) (sym d) ∙ trim_end_idem dot (trim_start dot domain) ∙ d

below_trimmed :
    (domain : Text)
    → trim_end dot domain ≡ domain
    → domain ≢ []
    → trim_end dot (dot ∷ domain) ≡ dot ∷ domain
below_trimmed domain e n =
    trim_end-append dot (dot ∷ []) domain (rw e n) ∙ ap (λ (t : Text). dot ∷ t) e

host_trimmed :
    (number domain : Text)
    → trim_dots domain ≡ domain
    → domain ≢ []
    → trim_end dot (number ++ (dot ∷ domain)) ≡ number ++ (dot ∷ domain)
host_trimmed number domain d n =
    let base = below_trimmed domain (domain_trimmed domain d) n in
    trim_end-append dot number (dot ∷ domain) (rw base (λ h. cc h))
    ∙ ap (λ (t : Text). number ++ t) base

-- Where the handler `create_account` makes an account of a number, and the base domain has no dots at
-- its ends and is not empty, `account_from_sni` takes the number, a dot and the domain as a host of
-- that account.
pub create_account-account_from_sni :
    (number domain : Text) (account : Account) (inner next : InMem.Inner)
    → create_account_number number inner ≡ (reply created account, next)
    → trim_dots domain ≡ domain
    → domain ≢ []
    → account_from_sni (number ++ (dot ∷ domain)) domain ≡ some number
unfolding is_valid_account_number is_empty
create_account-account_from_sni number domain account inner next h d n =
    let valid = create_account_valid number account inner next h in
    (account_from_sni_iff (number ++ (dot ∷ domain)) domain number).1 (record {
      based = rw d n;
      labelled = λ e. ground arith;
      single = no_dots number (ground arith);
      host = host_trimmed number domain d n ∙ rw d;
    })
