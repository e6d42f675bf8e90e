-- ===== src/Server/Auth/Token.antt =====
-- auth.rs: how a request's bearer token is checked. JSON values, base64 and the floating-point times
-- of the claims are other crates' and parameters; so is the key set of an issuer, which auth/jwks.rs
-- fetches and caches.
pub mod Verified
mod Tests
use sovereign_config.Prelude.{
  ℕ, zero, suc, ◌+◌, ◌-◌, ◌*◌, ◌/◌, ◌%◌, ◌^◌, ◌≤◌, ◌<◌, min, max, String, ◌≡◌, refl, sym, ap, ◌∙◌,
  subst, ◌≡⟨◌⟩◌, ◌∎, ◌≢◌, ◌↔◌, ◌⊎◌, inl, inr, Bool, true, false, not, ◌&&◌, ◌||◌, Option, none,
  some, List, [], ◌∷◌, ◌++◌, map, append_assoc, append-nil, arith, ltb, leb, ◌==◌, if◌then◌else◌,
  ==_iff, Bool-cases, Option-cases, is_some, is_none, get_or, All, Any, here, ok, err, there,
  length, is_empty, take, drop, get_elem?, all, any, keep_if, length-append, length-take-le,
  take-append_length, drop-append_length, take-append-drop, all-append, all_iff, any_sound,
  any_complete, any-not, All-append, All-left, All-right, All-keep_if, All-map_of, insert_by,
  sort_by, find, filter_map, All-sort_by, All-filter_map, Text, codes, slash, text_eq, text_eq_refl,
  text_eq_sound, text_eq_iff, lower, fold, eq_ignore_ascii_case, strip_prefix, starts_with,
  contains, extend_head, split, trim_start_matches, join, rsplit_once, is_ascii_lowercase,
  is_ascii_uppercase, is_ascii_alphabetic, is_ascii_digit, is_control, concat, decimal_digits,
  decimal, text_le, Result, ◌>>=◌, ok_or, map_err, is_ok, map_err-eq-ok, ok_or-eq-ok, Result-cases,
  lower_idem, lower-eq_slash, fold_idem, fold-append, length-fold, strip_prefix-append,
  strip_prefix_sound, starts_with-append, starts_with_sound, extend_head-map-fold, split-fold,
  split-ne-nil, join-split, split_part, split-append, split_free, contains-append,
}
use sovereign_config.Core.Managed.{trim_start, trim_end}
use sovereign_config.Server.Auth.{
  AuthenticatedPrincipal, RawGrant, AuthenticationResult, validate_grants, missing_bearer,
  malformed_bearer, wrong_algorithm, invalid_claims, bad_signature, inactive, unavailable,
}

abbrev pub required_scope : Text
required_scope = codes "sovereign-config"

abbrev pub max_display_name_characters : ℕ
max_display_name_characters = 128

-- In seconds.
abbrev pub clock_leeway : ℕ
clock_leeway = 30

-- `serde_json` on the values `J` of the claims, with the `f64` times `F` and their operations.
pub record Json (J F : Type 0) : Type 0 where
  pub as_str : J → Option Text
  pub as_f64 : J → Option F
  pub as_array : J → Option (List J)
  pub read_grants : J → Option (List RawGrant)
  pub after : F → F → Bool
  pub plus_seconds : F → ℕ → F

pub record TokenClaims (J : Type 0) : Type 0 where
  pub iss : Option J
  pub aud : Option J
  pub sub : Option J
  pub scope : Option J
  pub exp : Option J
  pub nbf : Option J
  pub iat : Option J
  pub sovereign_config_grants : Option J
  pub preferred_username : Option J
  pub username : Option J

pub record JoseHeader : Type 0 where
  pub alg : Text
  pub kid : Option Text

pub record Jwt (J : Type 0) : Type 0 where
  pub kid : Text
  pub signing_input : Text
  pub signature : Text
  pub claims : TokenClaims J

pub record AcceptedIdentity : Type 0 where
  pub issuer : Text
  pub audience : Text

-- What decodes a token: base64 and JSON.
pub record Decoder (J : Type 0) : Type 0 where
  pub base64_decode : Text → Option Text
  pub read_header : Text → Option JoseHeader
  pub read_claims : Text → Option (TokenClaims J)

pub data KeyLookup (K : Type 0) : Type 0 where
  found : K → KeyLookup K
  unknown_key keys_unavailable : KeyLookup K

-- The key sets of the issuers, and a key's check of a signature.
pub record KeySets (K : Type 0) : Type 0 where
  pub key : Text → Text → KeyLookup K
  pub verifies : K → Text → Text → Bool

-- `u8::is_ascii_whitespace`
unfoldable pub is_ascii_whitespace : ℕ → Bool
is_ascii_whitespace c = c == 9 || c == 10 || c == 12 || c == 13 || c == 32

unfoldable pub split_once : ℕ → Text → Option (Text × Text)
split_once c [] = none
split_once c (a ∷ s) =
    if a == c
    then some ([], s)
    else elim (split_once c s) [ none ↦ none | some (before, rest) ↦ some (a ∷ before, rest) ]

abbrev pub require : Bool → AuthenticationResult → Result AuthenticationResult (Unit {0})
require true failure = ok tt
require false failure = err failure

-- A header's values; one that is not visible ASCII has no text.
unfoldable pub bearer_token : List (Option Text) → Result AuthenticationResult Text
unfolding split_once is_ascii_whitespace any text_eq fold
bearer_token [] = err missing_bearer
bearer_token (_ ∷ (_ ∷ _)) = err malformed_bearer
bearer_token (value ∷ []) = ok_or value malformed_bearer >>= λ text.
    ok_or (split_once b' ' text) malformed_bearer >>= λ (parts : Text × Text).
    require
      (eq_ignore_ascii_case parts.0 (codes "bearer")
        && not (is_empty parts.1)
        && not (any is_ascii_whitespace parts.1))
      malformed_bearer
    >>= λ _. ok parts.1

-- The three segments of a compact token.
abbrev pub three_segments : List Text → Option (Text × Text × Text)
three_segments (header ∷ (payload ∷ (signature ∷ []))) = some (header, payload, signature)
three_segments _ = none

abbrev pub non_empty : Option Text → Option Text
non_empty none = none
non_empty (some []) = none
non_empty (some (c ∷ s)) = some (c ∷ s)

abbrev pub and_then : {A B : Type 0} → Option A → (A → Option B) → Option B
and_then none f = none
and_then (some a) f = f a

-- The parts of a string that whitespace separates, none of them empty.
abbrev pub extend_word : ℕ → Bool → List Text → List Text
extend_word c true words = (c ∷ []) ∷ words
extend_word c false [] = (c ∷ []) ∷ []
extend_word c false (word ∷ words) = (c ∷ word) ∷ words

abbrev pub starts_blank : Text → Bool
starts_blank [] = true
starts_blank (c ∷ s) = is_ascii_whitespace c

unfoldable pub split_ascii_whitespace : Text → List Text
unfolding is_ascii_whitespace
split_ascii_whitespace [] = []
split_ascii_whitespace (c ∷ s) =
    let rest = split_ascii_whitespace s in
    if is_ascii_whitespace c then rest else extend_word c (starts_blank s) rest

module _ {J F : Type 0} (json : Json J F) where
  unfoldable pub parse_jwt : Decoder J → Text → Result AuthenticationResult (Jwt J)
  unfolding split text_eq
  parse_jwt decoder token =
      ok_or (three_segments (split b'.' token)) malformed_bearer >>= λ (parts : Text × Text × Text).
      require (not (is_empty parts.0 || is_empty parts.1 || is_empty parts.2)) malformed_bearer
      >>= λ _.
          ok_or (and_then (decoder.base64_decode parts.0) decoder.read_header) malformed_bearer
          >>= λ header. require (text_eq header.alg (codes "RS256")) wrong_algorithm >>= λ _.
              ok_or (non_empty header.kid) malformed_bearer >>= λ kid.
              ok_or (and_then (decoder.base64_decode parts.1) decoder.read_claims) malformed_bearer
              >>= λ claims. ok_or (decoder.base64_decode parts.2) malformed_bearer >>= λ signature.
                  ok (record {
                    kid = kid;
                    signing_input = take (length parts.0 + (1 + length parts.1)) token;
                    signature = signature;
                    claims = claims;
                  })

  -- The time of a claim: none where the claim is missing, a refusal where it is no number.
  abbrev pub time : Option J → Result AuthenticationResult (Option F)
  time none = ok none
  time (some value) = ok_or (json.as_f64 value) invalid_claims >>= λ at. ok (some at)

  abbrev pub later_than : Option F → F → Bool
  later_than none limit = false
  later_than (some at) limit = json.after at limit

  unfoldable pub require_current : TokenClaims J → F → Result AuthenticationResult (Unit {0})
  require_current claims now = time claims.exp >>= λ expiry.
      ok_or expiry invalid_claims >>= λ expires. time claims.nbf >>= λ not_before.
      time claims.iat >>= λ issued.
      require
        (not (
          json.after now (json.plus_seconds expires clock_leeway)
          || later_than not_before (json.plus_seconds now clock_leeway)
          || later_than issued (json.plus_seconds now clock_leeway)))
        inactive

  abbrev pub is_text : Text → Option Text → Bool
  is_text expected none = false
  is_text expected (some text) = text_eq text expected

  abbrev pub audiences : Text → Option (List J) → Bool
  audiences expected none = false
  audiences expected (some values) =
      all (λ value. is_some (json.as_str value)) values
      && any (λ value. is_text expected (json.as_str value)) values

  unfoldable pub audience_contains : J → Text → Bool
  unfolding text_eq all any
  audience_contains audience expected =
      is_text expected (json.as_str audience) || audiences expected (json.as_array audience)

  abbrev pub text_of : Option J → Option Text
  text_of claim = and_then claim json.as_str

  abbrev pub for_audience : Text → Option J → Bool
  for_audience expected none = false
  for_audience expected (some audience) = audience_contains audience expected

  abbrev pub accepts : TokenClaims J → AcceptedIdentity → Bool
  accepts claims identity =
      is_text identity.issuer (text_of claims.iss) && for_audience identity.audience claims.aud

  abbrev pub has_scope : Option Text → Bool
  has_scope none = false
  has_scope (some scopes) =
      any (λ scope. text_eq scope required_scope) (split_ascii_whitespace scopes)

  -- One claim of a name, made safe to store and to print.
  abbrev pub clean_name : Text → Text
  clean_name claim =
      let kept = take max_display_name_characters (keep_if (λ c. not (is_control c)) claim) in
      trim_start (trim_end kept)

  abbrev pub or_else : Option Text → Option Text → Option Text
  or_else none second = second
  or_else (some name) second = some name

  abbrev pub cleaned : Option Text → Option Text
  cleaned none = none
  cleaned (some claim) = non_empty (some (clean_name claim))

  unfoldable pub display_name : Option J → Option J → Option Text
  unfolding keep_if trim_start trim_end
  display_name preferred_username username =
      or_else (cleaned (text_of preferred_username)) (cleaned (text_of username))

  unfoldable pub validate_claims :
      TokenClaims J → List AcceptedIdentity → Result AuthenticationResult AuthenticatedPrincipal
  unfolding audience_contains split_ascii_whitespace any text_eq display_name validate_grants
  validate_claims claims accepted_identities =
      require (any (accepts claims) accepted_identities && has_scope (text_of claims.scope))
        invalid_claims
      >>= λ _. ok_or (non_empty (text_of claims.sub)) invalid_claims >>= λ subject.
          ok_or claims.sovereign_config_grants invalid_claims >>= λ given.
          ok_or (json.read_grants given) invalid_claims >>= λ raw_grants.
          validate_grants raw_grants >>= λ grants. ok (record {
            subject = subject;
            name = display_name claims.preferred_username claims.username;
            grants = grants;
          })

  module _ {K : Type 0} (decoder : Decoder J) (keys : KeySets K)
      (accepted_identities : List AcceptedIdentity) where
    -- The issuer of the claims, if it is one of the configured.
    abbrev pub known_issuer : Option Text → Option Text
    known_issuer none = none
    known_issuer (some issuer) =
        if any (λ (identity : AcceptedIdentity). text_eq identity.issuer issuer) accepted_identities
        then some issuer
        else none

    abbrev pub looked_up : KeyLookup K → Result AuthenticationResult K
    looked_up (found key) = ok key
    looked_up unknown_key = err bad_signature
    looked_up keys_unavailable = err unavailable

    -- `Authenticator::authenticate`
    unfoldable pub authenticate :
        List (Option Text) → F → Result AuthenticationResult AuthenticatedPrincipal
    unfolding bearer_token parse_jwt any text_eq require_current validate_claims
    authenticate headers now = bearer_token headers >>= λ token. parse_jwt decoder token >>= λ jwt.
        ok_or (known_issuer (text_of jwt.claims.iss)) invalid_claims >>= λ issuer.
        looked_up (keys.key issuer jwt.kid) >>= λ key.
        require (keys.verifies key jwt.signing_input jwt.signature) bad_signature >>= λ _.
        require_current jwt.claims now >>= λ _. validate_claims jwt.claims accepted_identities
