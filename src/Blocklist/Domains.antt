-- ===== src/Blocklist/Domains.antt =====
-- What is taken for a domain from a feed.
use brdns.Prelude.{◌≡◌, ◌≤◌, true, length}
use brdns.Prelude.Text.{Text, dot, contains}
use brdns.Categories.{normalize_domain}
use brdns.Blocklist.{all_domain_chars, any_alphabetic}

-- Lower case, with no dots at the end. A dot in front and two dots in a row are not excluded.
pub record IsDomain (d : Text) : Type 0 where
  pub short : (1 ≤ length d) × (length d ≤ 253)
  pub chars : all_domain_chars d ≡ true
  pub dotted : contains d dot ≡ true
  pub alphabetic : any_alphabetic d ≡ true
  pub normal : normalize_domain d ≡ d
