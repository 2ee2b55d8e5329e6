-- ===== src/Http/Cors.antt =====
-- pkg/httpkit/middleware.go: CORS. The values of headers that the configuration joins are kept as
-- their lists; `max_age` is in nanoseconds.
pub mod Origins
mod Tests
use backend_infrastructure_g.Base.{
  ℕ, ◌/◌, Bool, true, false, not, ◌&&◌, ◌||◌, Option, none, some, List, [], ◌∷◌, Text, codes,
  text_eq, ℤ, pos, pos_part, ltb_ℤ, if◌then◌else◌,
}

pub record CorsConfig : Type 0 where
  pub allowed_origins : List Text
  pub allowed_methods : List Text
  pub allowed_headers : List Text
  pub exposed_headers : List Text
  pub allow_credentials : Bool
  pub max_age : ℤ

-- Membership in the set that `stringSet` makes.
unfoldable pub listed : Text → List Text → Bool
listed origin [] = false
listed origin (o ∷ origins) = text_eq o origin || listed origin origins

-- `Validate`; false stands for its error.
unfoldable pub validate : CorsConfig → Bool
validate config =
    if config.allow_credentials then not (listed (codes "*") config.allowed_origins) else true

-- The headers of a preflight's reply.
pub record Preflight : Type 0 where
  pub methods : List Text
  pub headers : List Text
  pub max_age_seconds : Option ℕ

-- The headers for an origin that is let in; a preflight is answered 204 at once, and otherwise the
-- next handler runs.
pub record Allowed : Type 0 where
  pub origin : Text
  pub credentials : Bool
  pub exposed : List Text
  pub preflight : Option Preflight

-- With a configuration that is not valid no header is set; Vary is set in the other two cases.
pub data Reply : Type 0 where
  disabled vary_only : Reply
  lets_in : Allowed → Reply

unfoldable pub preflight_of : CorsConfig → Preflight
preflight_of config = record {
  methods = config.allowed_methods;
  headers = config.allowed_headers;
  max_age_seconds =
      if ltb_ℤ (pos 0) config.max_age then some (pos_part config.max_age / 1000000000) else none;
}

unfoldable pub allowed_reply : CorsConfig → Text → Bool → Allowed
unfolding preflight_of
allowed_reply config origin is_preflight = record {
  origin =
      if listed (codes "*") config.allowed_origins && not config.allow_credentials
      then codes "*"
      else origin;
  credentials = config.allow_credentials;
  exposed = config.exposed_headers;
  preflight = if is_preflight then some (preflight_of config) else none;
}

-- A request with the Origin header, empty if there is none; a preflight is an OPTIONS request with
-- Access-Control-Request-Method.
unfoldable pub cors : CorsConfig → Text → Bool → Reply
unfolding allowed_reply
cors config [] is_preflight = if validate config then vary_only else disabled
cors config (c ∷ s) is_preflight =
    if validate config
    then (if not (listed (c ∷ s) config.allowed_origins)
          && not (listed (codes "*") config.allowed_origins)
        then vary_only
        else lets_in (allowed_reply config (c ∷ s) is_preflight))
    else disabled
