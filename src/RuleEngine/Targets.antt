-- ===== src/RuleEngine/Targets.antt =====
-- Which names a target covers.
use brdns.Prelude.{
  ℕ, ◌≡◌, refl, ◌≢◌, ◌↔◌, ◌⊎◌, inl, inr, true, ◌||◌, [], ◌∷◌, ◌++◌, arith, Bool-cases, replicate,
}
use brdns.Prelude.Text.{
  Text, dot, text_eq, text_eq_iff, is_empty, to_ascii_lowercase, to_ascii_lowercase_idem, trim_end,
  trim_star_dot, ends_with, ends_with-append, ends_with_front,
}
use brdns.Prelude.Trim.{is_empty_iff, trim_end-lower, trim_end_idem, trim_end-append_replicate}
use brdns.Model.{TargetType, domain, wildcard, category}
use brdns.RuleEngine.{normalize, matches_target}

-- `name` is the domain `suffix` or stands below it.
abbrev pub IsWithin : Text → Text → Type 0
IsWithin suffix name = (name ≡ suffix) ⊎ ((sub : Text) × (name ≡ sub ++ (dot ∷ suffix)))

IsWithin-test :
    (suffix q : Text)
    → ((text_eq q suffix || ends_with q (dot ∷ suffix)) ≡ true) ↔ IsWithin suffix q
IsWithin-test suffix q = (to, from)
  where
    to : (text_eq q suffix || ends_with q (dot ∷ suffix)) ≡ true → IsWithin suffix q
    to h = elim (Bool-cases (text_eq q suffix)) [
      | inl e ↦ inl ((text_eq_iff q suffix).0 e)
      | inr e ↦ inr (ends_with_front q (dot ∷ suffix) (rw e at h))
    ]

    from : IsWithin suffix q → (text_eq q suffix || ends_with q (dot ∷ suffix)) ≡ true
    from (inl e) = rw ((text_eq_iff q suffix).1 e)
    from (inr (sub, e)) =
        let k : ends_with q (dot ∷ suffix) ≡ true = rw e (ends_with-append sub (dot ∷ suffix)) in
        ground arith

-- A wildcard target covers a name exactly where its suffix is not empty and the name is the suffix
-- or ends in a dot and the suffix, all without case and trailing dots.
pub matches_target_wildcard :
    (qname value : Text)
    → (matches_target qname wildcard value ≡ true) ↔ (
        (normalize (trim_star_dot value) ≢ [])
        × IsWithin (normalize (trim_star_dot value)) (normalize qname))
unfolding matches_target
matches_target_wildcard qname value = elim (Bool-cases (is_empty suffix)) [
  | inl e ↦ rw e ((λ h. cc), λ w. absurd (w.0 ((is_empty_iff suffix).0 e)))
  | inr e ↦ rw e (
    (λ h. ((λ k. cc ((is_empty_iff suffix).1 k)), (IsWithin-test suffix (normalize qname)).0 h)),
    λ w. (IsWithin-test suffix (normalize qname)).1 w.1,
  )
]
  where
    suffix : Text
    suffix = normalize (trim_star_dot value)

normalize_idem : (s : Text) → normalize (normalize s) ≡ normalize s
unfolding normalize
normalize_idem s =
    rw (trim_end-lower (trim_end dot s), trim_end_idem dot s)
      (to_ascii_lowercase_idem (trim_end dot s))

normalize_variant :
    (s u : Text) (n : ℕ)
    → to_ascii_lowercase u ≡ to_ascii_lowercase s
    → normalize (u ++ replicate n dot) ≡ normalize s
unfolding normalize
normalize_variant s u n h =
    rw (trim_end-append_replicate dot u n, ← trim_end-lower u, h) (trim_end-lower s)

-- A name written in another case, with any number of trailing dots, is covered by the same targets.
pub matches_target_variant :
    (s u : Text) (n : ℕ) (t : TargetType) (value : Text)
    → to_ascii_lowercase u ≡ to_ascii_lowercase s
    → matches_target (u ++ replicate n dot) t value ≡ matches_target s t value
unfolding matches_target
matches_target_variant s u n domain value h = rw (normalize_variant s u n h)
matches_target_variant s u n wildcard value h = rw (normalize_variant s u n h)
matches_target_variant s u n category value h = refl

-- A domain target covers exactly the names that are its value without case and trailing dots.
pub matches_target_domain :
    (qname value : Text)
    → (matches_target qname domain value ≡ true) ↔ (normalize qname ≡ normalize value)
unfolding matches_target
matches_target_domain qname value = text_eq_iff (normalize qname) (normalize value)
