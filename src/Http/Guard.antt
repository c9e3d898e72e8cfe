-- ===== src/Http/Guard.antt =====
-- What the bearer token of lib/controlplane/http/auth.rs keeps out.
use brdns.Prelude.{
  ℕ, ◌≡◌, ◌↔◌, ◌⊎◌, refl, sym, ap, ◌∙◌, bit_or, bit_xor, Bool, true, false, Option, none, some,
  List, [], ◌∷◌, ◌++◌, arith, length, ◌==◌, ==_iff, Bool-cases, Option-cases, inl, inr,
}
use mathlib.Core.Path.{subst}
use brdns.Prelude.Bits.{bit_xor_zero_iff, bit_or_zero_iff}
use brdns.Prelude.Text.{Text, bytes, strip_prefix}
use brdns.ControlPlane.InMem.{Inner}
use brdns.Http.{unauthorized, Reply, refused}
use brdns.Http.Auth.{
  diff_of, constant_time_eq, is_bearer, authorized, Request, get_healthz, post_account,
  get_account_of, get_rules, put_rules, get_upstreams, put_upstreams, get_presets, Body, dispatch,
  auth, router,
}

diff_of-zero : (d : ℕ) (a b : List ℕ) → length a ≡ length b → diff_of d a b ≡ 0 → (d ≡ 0) × (a ≡ b)
unfolding diff_of
diff_of-zero d [] [] l h = (h, refl)
diff_of-zero d [] (y ∷ b) l h = cc l
diff_of-zero d (x ∷ a) [] l h = cc l
diff_of-zero d (x ∷ a) (y ∷ b) l h =
    let r = diff_of-zero (bit_or d (bit_xor x y)) a b (omega (arith, l)) h in
    let o = (bit_or_zero_iff d (bit_xor x y)).0 r.0 in
    (o.0, rw ((bit_xor_zero_iff x y).0 o.1, r.1) refl)

diff_of_same : (a : List ℕ) → diff_of 0 a a ≡ 0
unfolding diff_of
diff_of_same [] = refl
diff_of_same (x ∷ a) =
    let e : bit_or 0 (bit_xor x x) ≡ 0 =
      (bit_or_zero_iff 0 (bit_xor x x)).1 (refl, (bit_xor_zero_iff x x).1 refl) in
    rw e (diff_of_same a)

-- The comparison is that of the texts.
pub constant_time_eq_iff : (a b : List ℕ) → (constant_time_eq a b ≡ true) ↔ (a ≡ b)
unfolding constant_time_eq
constant_time_eq_iff a b = (
  λ h. elim (Bool-cases (length a == length b)) [
    | inl e ↦ (diff_of-zero 0 a b ((==_iff (length a) (length b)).0 e) (ground (arith, h, e))).1
    | inr e ↦ ground (arith, h, e)
  ],
  λ e. rw e (rw ((==_iff (length b) (length b)).1 refl, diff_of_same b) refl),
)

strip_prefix_iff : (s p r : Text) → (strip_prefix s p ≡ some r) ↔ (s ≡ p ++ r)
unfolding strip_prefix
strip_prefix_iff s [] r = (λ h. ground (arith, h), λ h. ap some h)
strip_prefix_iff [] (y ∷ p) r = (λ h. cc h, λ h. cc h)
strip_prefix_iff (x ∷ s) (y ∷ p) r = ground (arith, strip_prefix_iff s p r)

bearer-none :
    (expected text : Text)
    → strip_prefix text (bytes "Bearer ") ≡ none
    → is_bearer expected text ≡ false
unfolding is_bearer
bearer-none expected text e = rw (e, is_bearer)

bearer-some :
    (expected text token : Text)
    → strip_prefix text (bytes "Bearer ") ≡ some token
    → is_bearer expected text ≡ constant_time_eq token expected
unfolding is_bearer
bearer-some expected text token e = rw (e, is_bearer)

is_bearer_iff :
    (expected text : Text) → (is_bearer expected text ≡ true) ↔ (text ≡ bytes "Bearer " ++ expected)
is_bearer_iff expected text = (
  λ h. elim (Option-cases (strip_prefix text (bytes "Bearer "))) [
    | inl e ↦ cc (sym (bearer-none expected text e) ∙ h)
    | inr (token, e) ↦
        (strip_prefix_iff text (bytes "Bearer ") token).0 e
        ∙ ap (λ t. bytes "Bearer " ++ t)
            ((constant_time_eq_iff token expected).0 (sym (bearer-some expected text token e) ∙ h))
  ],
  λ h.
      bearer-some expected text expected ((strip_prefix_iff text (bytes "Bearer ") expected).1 h)
      ∙ (constant_time_eq_iff expected expected).1 refl,
)

abbrev pub is_api : Request → Bool
is_api get_healthz = false
is_api (post_account random number) = true
is_api (get_account_of number) = true
is_api (get_rules number) = true
is_api (put_rules number body) = true
is_api (get_upstreams number) = true
is_api (put_upstreams number body) = true
is_api get_presets = true

module _ (to_str : List ℕ → Option Text) where
  -- The header's value reads as the word and the token.
  abbrev pub IsBearer : Text → Option (List ℕ) → Type 0
  IsBearer expected header =
      (value : List ℕ) × (header ≡ some value) × (to_str value ≡ some (bytes "Bearer " ++ expected))

  read-none :
      (expected : Text) (value : List ℕ)
      → to_str value ≡ none
      → authorized to_str expected (some value) ≡ false
  unfolding authorized
  read-none expected value e = rw (e, authorized)

  read-some :
      (expected : Text) (value : List ℕ) (text : Text)
      → to_str value ≡ some text
      → authorized to_str expected (some value) ≡ is_bearer expected text
  unfolding authorized
  read-some expected value text e = rw (e, authorized)

  authorized_iff :
      (expected : Text) (header : Option (List ℕ))
      → (authorized to_str expected header ≡ true) ↔ IsBearer expected header
  authorized_iff expected none = (λ h. unfold authorized in cc h, λ (v, e, f). cc e)
  authorized_iff expected (some value) = (
    λ h. elim (Option-cases (to_str value)) [
      | inl e ↦ cc (sym (read-none expected value e) ∙ h)
      | inr (text, e) ↦ (
        value,
        refl,
        e ∙ ap some ((is_bearer_iff expected text).0 (sym (read-some expected value text e) ∙ h)),
      )
    ],
    λ (v, e, f).
        ap (λ o. authorized to_str expected o) e
        ∙ read-some expected v (bytes "Bearer " ++ expected) f
        ∙ (is_bearer_iff expected (bytes "Bearer " ++ expected)).1 refl,
  )

  -- A token is set, and the header carries it.
  abbrev pub IsAdmitted : Option Text → Option (List ℕ) → Type 0
  IsAdmitted token header = (expected : Text) × (token ≡ some expected) × IsBearer expected header

  abbrev pub IsGuarded :
      Option Text
      → Option (List ℕ)
      → Inner
      → Option (Reply Body × Inner)
      → Option (Reply Body × Inner)
      → Type 0
  IsGuarded token header inner answer handled =
      (IsAdmitted token header × (answer ≡ handled))
      ⊎ (¬ (IsAdmitted token header) × (answer ≡ some (refused unauthorized, inner)))

  authorized-IsAdmitted :
      (expected : Text) (header : Option (List ℕ))
      → authorized to_str expected header ≡ false
      → ¬ (IsAdmitted (some expected) header)
  authorized-IsAdmitted expected header e (t, s, b) =
      let same : IsBearer expected header = subst (λ x. IsBearer x header) (ground (arith, s)) b in
      cc (sym e ∙ (authorized_iff expected header).1 same)

  auth-IsGuarded :
      (token : Option Text) (header : Option (List ℕ)) (request : Request) (inner : Inner)
      → IsGuarded token header inner
          (auth to_str token header request inner)
          (dispatch request inner)
  unfolding auth
  auth-IsGuarded none header request inner = inr (λ (t, e, b). cc e, refl)
  auth-IsGuarded (some expected) header request inner =
      elim (Bool-cases (authorized to_str expected header)) [
        | inl e ↦ inl ((expected, refl, (authorized_iff expected header).0 e), rw (e, auth))
        | inr e ↦ inr (authorized-IsAdmitted expected header e, rw (e, auth))
      ]

  -- Every request but that of the health check is handled exactly where a token is set and the
  -- header is `Bearer ` and that token. Any other is answered as unauthorized, and changes nothing.
  pub router-IsGuarded :
      (token : Option Text) (header : Option (List ℕ)) (request : Request) (inner : Inner)
      → is_api request ≡ true
      → IsGuarded token header inner
          (router to_str token header request inner)
          (dispatch request inner)
  unfolding router
  router-IsGuarded token header get_healthz inner h = cc h
  router-IsGuarded token header (post_account random number) inner h =
      auth-IsGuarded token header (post_account random number) inner
  router-IsGuarded token header (get_account_of number) inner h =
      auth-IsGuarded token header (get_account_of number) inner
  router-IsGuarded token header (get_rules number) inner h =
      auth-IsGuarded token header (get_rules number) inner
  router-IsGuarded token header (put_rules number body) inner h =
      auth-IsGuarded token header (put_rules number body) inner
  router-IsGuarded token header (get_upstreams number) inner h =
      auth-IsGuarded token header (get_upstreams number) inner
  router-IsGuarded token header (put_upstreams number body) inner h =
      auth-IsGuarded token header (put_upstreams number body) inner
  router-IsGuarded token header get_presets inner h = auth-IsGuarded token header get_presets inner
