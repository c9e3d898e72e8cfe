-- ===== src/Identity.antt =====
-- lib/identity.rs: the account that a client names by the host it dials.
pub mod Sni
use brdns.Prelude.{Option, none, some, ◌∷◌, ◌||◌, if◌then◌else◌}
use brdns.Prelude.Text.{Text, dot, text_eq, is_empty, trim_end, trim_start, strip_suffix, contains}

-- `trim_matches('.')`: both ends.
unfoldable pub trim_dots : Text → Text
unfolding trim_end trim_start
trim_dots s = trim_end dot (trim_start dot s)

unfoldable pub account_from_sni : Text → Text → Option Text
unfolding trim_end trim_dots is_empty text_eq strip_suffix contains
account_from_sni sni_in domain_in =
    let sni = trim_end dot sni_in in
    let domain = trim_dots domain_in in
    if is_empty domain || is_empty sni
    then none
    else if text_eq sni domain
    then none
    else elim (strip_suffix sni (dot ∷ domain)) [
      | none ↦ none
      | some account ↦ if is_empty account || contains account dot then none else some account
    ]
