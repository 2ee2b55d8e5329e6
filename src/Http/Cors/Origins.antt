-- ===== src/Http/Cors/Origins.antt =====
-- Which origins CORS lets in.
use backend_infrastructure_g.Base.{◌≡◌, Bool, true, false, [], ◌∷◌, Text, codes, arith}
use backend_infrastructure_g.Http.Cors.{
  CorsConfig, Allowed, lets_in, listed, validate, allowed_reply, cors,
}

-- If a reply lets credentials through, then the wildcard is not configured, the request's origin is
-- listed, and the reply names exactly that origin.
pub cors_credentials :
    (config : CorsConfig) (origin : Text) (is_preflight : Bool) (a : Allowed)
    → cors config origin is_preflight ≡ lets_in a
    → a.credentials ≡ true
    → (listed (codes "*") config.allowed_origins ≡ false)
      × (listed origin config.allowed_origins ≡ true)
      × (a.origin ≡ origin)
unfolding cors validate allowed_reply
cors_credentials config [] is_preflight a e c = ground arith
cors_credentials config (x ∷ s) is_preflight a e c = ground arith
