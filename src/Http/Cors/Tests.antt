-- ===== src/Http/Cors/Tests.antt =====
-- One origin that may send credentials.
use backend_infrastructure_g.Base.{◌≡◌, refl, true, false, none, [], ◌∷◌, codes, text_eq, pos}
use backend_infrastructure_g.Http.Cors.{CorsConfig, Allowed, lets_in, listed, validate, cors}
use backend_infrastructure_g.Http.Cors.Origins.{cors_credentials}

abbrev config : CorsConfig
config = record {
  allowed_origins = codes "https://a" ∷ [];
  allowed_methods = [];
  allowed_headers = [];
  exposed_headers = [];
  allow_credentials = true;
  max_age = pos 0;
}

abbrev reply : Allowed
reply = record { origin = codes "https://a"; credentials = true; exposed = []; preflight = none }

replies : cors config (codes "https://a") false ≡ lets_in reply
unfolding cors listed validate text_eq
replies = refl

cors_credentials_example :
    (listed (codes "*") (codes "https://a" ∷ []) ≡ false)
    × (listed (codes "https://a") (codes "https://a" ∷ []) ≡ true)
    × (codes "https://a" ≡ codes "https://a")
cors_credentials_example = cors_credentials config (codes "https://a") false reply replies refl
