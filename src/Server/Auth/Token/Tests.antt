-- ===== src/Server/Auth/Token/Tests.antt =====
-- A small token, and the theorem on `authenticate` at it.
use sovereign_config.Prelude.{
  ℕ, ◌+◌, ◌≡◌, refl, Option, none, some, List, [], ◌∷◌, ltb, ◌==◌, ok, length, all, any, keep_if,
  Text, codes, text_eq, lower, fold, split,
}
use sovereign_config.Core.Managed.{trim_start, trim_end, is_whitespace}
use sovereign_config.Server.Auth.{AuthenticatedPrincipal, validate_grants, collect_grants}
use sovereign_config.Server.Auth.Token.{
  Json, TokenClaims, Jwt, AcceptedIdentity, Decoder, found, KeySets, bearer_token, parse_jwt,
  authenticate, split_once, is_ascii_whitespace, split_ascii_whitespace, require_current,
  audience_contains, validate_claims, display_name,
}
use sovereign_config.Server.Auth.Token.Verified.{IsVerified, authenticate-IsVerified}

-- A JSON value is a text here, and a time its length.
abbrev json : Json Text ℕ
json = record {
  as_str = λ text. some text;
  as_f64 = λ text. some (length text);
  as_array = λ text. none;
  read_grants = λ text. some [];
  after = λ a b. ltb b a;
  plus_seconds = λ a n. a + n;
}

abbrev claims : TokenClaims Text
claims = record {
  iss = some (codes "issuer");
  aud = some (codes "audience");
  sub = some (codes "subject");
  scope = some (codes "openid sovereign-config");
  exp = some (codes "12345");
  nbf = none;
  iat = none;
  sovereign_config_grants = some (codes "grants");
  preferred_username = some (codes " ann ");
  username = none;
}

abbrev decoder : Decoder Text
decoder = record {
  base64_decode = λ text. some text;
  read_header = λ text. some (record { alg = codes "RS256"; kid = some (codes "k") });
  read_claims = λ text. some claims;
}

abbrev keys : KeySets ℕ
keys = record { key = λ issuer kid. found 7; verifies = λ key input signature. key == 7 }

abbrev identities : List AcceptedIdentity
identities = record { issuer = codes "issuer"; audience = codes "audience" } ∷ []

abbrev headers : List (Option Text)
headers = some (codes "Bearer a.b.c") ∷ []

abbrev ann : AuthenticatedPrincipal
ann = record { subject = codes "subject"; name = some (codes "ann"); grants = [] }

authenticate-IsVerified_example :
    (token : Text) × (jwt : Jwt Text) × (bearer_token headers ≡ ok token)
    × (parse_jwt json decoder token ≡ ok jwt)
    × IsVerified json keys identities 20 jwt ann
unfolding authenticate bearer_token parse_jwt split_once is_ascii_whitespace split_ascii_whitespace
    require_current audience_contains validate_claims display_name validate_grants collect_grants
    any all text_eq fold lower split keep_if trim_start trim_end is_whitespace
authenticate-IsVerified_example =
    authenticate-IsVerified json decoder keys identities headers 20 ann refl
