-- ===== src/Http/Auth.antt =====
-- lib/controlplane/http/auth.rs and router.rs: the bearer token in front of the management API. A
-- request is the route that it is dispatched to, with its path's account and its body.
use brdns.Prelude.{
  ℕ, bit_or, bit_xor, Bool, false, not, Option, none, some, List, [], ◌∷◌, length, ◌==◌,
  if◌then◌else◌,
}
use brdns.Prelude.Text.{Text, bytes, strip_prefix}
use brdns.Model.{Account, Rule, Upstream, NewRule, NewUpstream}
use brdns.ControlPlane.InMem.{Inner}
use brdns.Http.{
  ok, unauthorized, Reply, reply, refused, create_account, get_account, list_rules, replace_rules,
  list_upstreams, replace_upstreams, list_presets,
}

-- The loop over the pairs of bytes, as long as the shorter text.
unfoldable pub diff_of : ℕ → List ℕ → List ℕ → ℕ
diff_of diff [] b = diff
diff_of diff (x ∷ a) [] = diff
diff_of diff (x ∷ a) (y ∷ b) = diff_of (bit_or diff (bit_xor x y)) a b

unfoldable pub constant_time_eq : List ℕ → List ℕ → Bool
unfolding diff_of
constant_time_eq a b = if not (length a == length b) then false else diff_of 0 a b == 0

-- What stands behind `Bearer `, compared with the token.
unfoldable pub is_bearer : Text → Text → Bool
unfolding constant_time_eq strip_prefix
is_bearer expected text = elim (strip_prefix text (bytes "Bearer ")) [
  | none ↦ false
  | some token ↦ constant_time_eq token expected
]

-- `to_str` is the reading of a header's value as text by the crate http.
unfoldable pub authorized : (List ℕ → Option Text) → Text → Option (List ℕ) → Bool
unfolding is_bearer
authorized to_str expected none = false
authorized to_str expected (some value) = elim (to_str value) [
  | none ↦ false
  | some text ↦ is_bearer expected text
]

-- The routes behind the token, and the one in front of it.
pub data Request : Type 0 where
  post_account : List ℕ → Text → Request
  get_account_of : Text → Request
  get_rules : Text → Request
  put_rules : Text → List NewRule → Request
  get_upstreams : Text → Request
  put_upstreams : Text → List NewUpstream → Request
  get_presets : Request
  get_healthz : Request

pub data Body : Type 0 where
  account : Account → Body
  rules : List Rule → Body
  upstreams : List Upstream → Body
  healthy no_body : Body

abbrev pub map_reply : {A B : Type 0} → (A → B) → Reply A → Reply B
map_reply f (reply status a) = reply status (f a)
map_reply f (refused status) = refused status

abbrev pub created_reply : Inner → Option (Reply Account × Inner) → Option (Reply Body × Inner)
created_reply inner none = none
created_reply inner (some (r, next)) = some (map_reply account r, next)

-- The handler of a route; `none` where the random bytes of a new number run out.
unfoldable pub dispatch : Request → Inner → Option (Reply Body × Inner)
unfolding create_account get_account list_rules replace_rules list_upstreams replace_upstreams
    list_presets
dispatch (post_account random number) inner =
    created_reply inner (create_account random number inner)
dispatch (get_account_of number) inner = some (map_reply account (get_account number inner), inner)
dispatch (get_rules number) inner = some (map_reply rules (list_rules number inner), inner)
dispatch (put_rules number body) inner =
    let (r, next) = replace_rules number body inner in some (map_reply rules r, next)
dispatch (get_upstreams number) inner =
    some (map_reply upstreams (list_upstreams number inner), inner)
dispatch (put_upstreams number body) inner =
    let (r, next) = replace_upstreams number body inner in some (map_reply upstreams r, next)
dispatch get_presets inner = some (map_reply upstreams (list_presets inner), inner)
dispatch get_healthz inner = some (reply ok healthy, inner)

module _ (to_str : List ℕ → Option Text) where
  -- The middleware: `next` runs only behind the token.
  unfoldable pub auth :
      Option Text → Option (List ℕ) → Request → Inner → Option (Reply Body × Inner)
  unfolding authorized dispatch
  auth none header request inner = some (refused unauthorized, inner)
  auth (some expected) header request inner =
      if authorized to_str expected header
      then dispatch request inner
      else some (refused unauthorized, inner)

  unfoldable pub router :
      Option Text → Option (List ℕ) → Request → Inner → Option (Reply Body × Inner)
  unfolding auth
  router token header get_healthz inner = dispatch get_healthz inner
  router token header (post_account random number) inner =
      auth token header (post_account random number) inner
  router token header (get_account_of number) inner =
      auth token header (get_account_of number) inner
  router token header (get_rules number) inner = auth token header (get_rules number) inner
  router token header (put_rules number body) inner =
      auth token header (put_rules number body) inner
  router token header (get_upstreams number) inner = auth token header (get_upstreams number) inner
  router token header (put_upstreams number body) inner =
      auth token header (put_upstreams number body) inner
  router token header get_presets inner = auth token header get_presets inner
