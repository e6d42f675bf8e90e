-- ===== src/Server/Auth/Token/Verified.antt =====
-- auth.rs `authenticate`: what an accepted token has shown.
use sovereign_config.Prelude.{
  ◌≡◌, refl, ap, ◌∙◌, subst, ◌≢◌, inl, inr, Bool, true, false, not, ◌&&◌, ◌||◌, Option, none, some,
  List, [], ◌∷◌, arith, Bool-cases, ok, err, any, Text, text_eq, Result, >>=-eq-ok, ok_or,
  ok_or-eq-ok,
}
use sovereign_config.Server.Auth.{
  AuthenticatedPrincipal, AuthenticationResult, validate_grants, invalid_claims, inactive,
  bad_signature,
}
use sovereign_config.Server.Auth.Token.{
  clock_leeway, Json, TokenClaims, Jwt, AcceptedIdentity, Decoder, KeyLookup, found, KeySets,
  bearer_token, parse_jwt, require, require_current, validate_claims, authenticate, text_of,
  known_issuer, looked_up, later_than, time, accepts, has_scope, non_empty,
}

-- What an accepted token has shown: an issuer that is configured, that issuer's key for its
-- signature, a time that is not past its expiry, the audience that goes with the issuer, the
-- service's scope, and a subject.
pub record IsVerified {J F K : Type 0} (json : Json J F) (keys : KeySets K)
    (accepted_identities : List AcceptedIdentity) (now : F) (jwt : Jwt J)
    (caller : AuthenticatedPrincipal) : Type 0 where
  pub issuer : Text
  pub issued_by : text_of json jwt.claims.iss ≡ some issuer
  pub configured :
      any (λ (identity : AcceptedIdentity). text_eq identity.issuer issuer) accepted_identities
      ≡ true
  pub key : K
  pub looked_up_key : keys.key issuer jwt.kid ≡ found key
  pub signed : keys.verifies key jwt.signing_input jwt.signature ≡ true
  pub expires : F
  pub expiry : time json jwt.claims.exp ≡ ok (some expires)
  pub current : json.after now (json.plus_seconds expires clock_leeway) ≡ false
  pub meant_for : any (accepts json jwt.claims) accepted_identities ≡ true
  pub scoped : has_scope json (text_of json jwt.claims.scope) ≡ true
  pub subject : text_of json jwt.claims.sub ≡ some caller.subject
  pub named : caller.subject ≢ []

require-eq-ok :
    (b : Bool) (failure : AuthenticationResult) {u : Unit {0}} → require b failure ≡ ok u → b ≡ true
require-eq-ok true failure h = refl
require-eq-ok false failure h = absurd (cc)

non_empty-eq-some : (o : Option Text) {t : Text} → non_empty o ≡ some t → (o ≡ some t) × (t ≢ [])
non_empty-eq-some none h = absurd (cc)
non_empty-eq-some (some []) h = absurd (cc)
non_empty-eq-some (some (c ∷ s)) {t} h = (h, λ e. cc)

module _ {J F K : Type 0} (json : Json J F) (decoder : Decoder J) (keys : KeySets K)
    (accepted_identities : List AcceptedIdentity) where
  known_issuer-eq-some :
      (o : Option Text) {issuer : Text}
      → known_issuer json decoder keys accepted_identities o ≡ some issuer
      → (o ≡ some issuer)
        × (any (λ (identity : AcceptedIdentity). text_eq identity.issuer issuer) accepted_identities
            ≡ true)
  known_issuer-eq-some none h = absurd (cc)
  known_issuer-eq-some (some issuer') {issuer} h =
      elim (Bool-cases (
        any (λ (identity : AcceptedIdentity). text_eq identity.issuer issuer')
          accepted_identities)) [
            | inl e ↦
                let same : issuer' ≡ issuer = ground (arith, e, h) in
                (
                  ap (λ (t : Text). some t) same,
                  subst
                      (λ (t : Text).
                        any (λ (identity : AcceptedIdentity). text_eq identity.issuer t)
                          accepted_identities
                        ≡ true)
                      same e,
                )
            | inr e ↦ absurd (ground (arith, e, h))
          ]

  looked_up-eq-ok :
      (lookup : KeyLookup K) {key : K}
      → looked_up json decoder keys accepted_identities lookup ≡ ok key
      → lookup ≡ found key
  looked_up-eq-ok (found k) h = cc
  looked_up-eq-ok KeyLookup.unknown_key h = absurd (cc)
  looked_up-eq-ok KeyLookup.keys_unavailable h = absurd (cc)

  require_current-eq-ok :
      (claims : TokenClaims J) (now : F) {u : Unit {0}}
      → require_current json claims now ≡ ok u
      → (expires : F) × (time json claims.exp ≡ ok (some expires))
        × (json.after now (json.plus_seconds expires clock_leeway) ≡ false)
  unfolding require_current
  require_current-eq-ok claims now h =
      let (expiry, timed, h1) = >>=-eq-ok (time json claims.exp) _ h in
      let (expires, given, h2) = >>=-eq-ok (ok_or expiry invalid_claims) _ h1 in
      let (not_before, read_before, h3) = >>=-eq-ok (time json claims.nbf) _ h2 in
      let (issued, read_issued, h4) = >>=-eq-ok (time json claims.iat) _ h3 in
      let inside : not (
            json.after now (json.plus_seconds expires clock_leeway)
            || later_than json not_before (json.plus_seconds now clock_leeway)
            || later_than json issued (json.plus_seconds now clock_leeway))
          ≡ true =
        require-eq-ok _ inactive h4 in
      (
        expires,
        timed ∙ ap (λ (o : Option F). ok o) (ok_or-eq-ok expiry invalid_claims given),
        ground (arith, inside),
      )

  record Claimed (claims : TokenClaims J) (caller : AuthenticatedPrincipal) : Type 0 where
    meant_for : any (accepts json claims) accepted_identities ≡ true
    scoped : has_scope json (text_of json claims.scope) ≡ true
    subject : text_of json claims.sub ≡ some caller.subject
    named : caller.subject ≢ []

  validate_claims-eq-ok :
      (claims : TokenClaims J) (caller : AuthenticatedPrincipal)
      → validate_claims json claims accepted_identities ≡ ok caller
      → Claimed claims caller
  unfolding validate_claims
  validate_claims-eq-ok claims caller h =
      let (u, checked, h1) =
        >>=-eq-ok
          (require
            (any (accepts json claims) accepted_identities
              && has_scope json (text_of json claims.scope))
            invalid_claims)
          _ h in
      let both : (any (accepts json claims) accepted_identities
            && has_scope json (text_of json claims.scope))
          ≡ true =
        require-eq-ok _ invalid_claims checked in
      let (subject, present, h2) =
        >>=-eq-ok (ok_or (non_empty (text_of json claims.sub)) invalid_claims) _ h1 in
      let (given, has_grants, h3) =
        >>=-eq-ok (ok_or claims.sovereign_config_grants invalid_claims) _ h2 in
      let (raw, parsed, h4) = >>=-eq-ok (ok_or (json.read_grants given) invalid_claims) _ h3 in
      let (grants, valid, h5) = >>=-eq-ok (validate_grants raw) _ h4 in
      let same : subject ≡ caller.subject = ap subject_of h5 in
      let (sub, filled) =
        non_empty-eq-some (text_of json claims.sub) (ok_or-eq-ok _ invalid_claims present) in
      record {
        meant_for = ground (arith, both);
        scoped = ground (arith, both);
        subject = sub ∙ ap (λ (t : Text). some t) same;
        named = subst (λ (t : Text). t ≢ []) same filled;
      }
    where
      subject_of : Result AuthenticationResult AuthenticatedPrincipal → Text
      subject_of (ok p) = p.subject
      subject_of (err e) = []

  -- A request that `authenticate` lets through carries a token of a configured issuer, signed with
  -- the key of that issuer which the token names, not past its expiry with the leeway, meant for the
  -- audience that goes with the issuer, with the service's scope, and for a subject, which is the caller's.
  pub authenticate-IsVerified :
      (headers : List (Option Text)) (now : F) (caller : AuthenticatedPrincipal)
      → authenticate json decoder keys accepted_identities headers now ≡ ok caller
      → (token : Text) × (jwt : Jwt J) × (bearer_token headers ≡ ok token)
        × (parse_jwt json decoder token ≡ ok jwt)
        × IsVerified json keys accepted_identities now jwt caller
  unfolding authenticate
  authenticate-IsVerified headers now caller h =
      let (token, borne, h1) = >>=-eq-ok (bearer_token headers) _ h in
      let (jwt, parsed, h2) = >>=-eq-ok (parse_jwt json decoder token) _ h1 in
      let (issuer, known, h3) =
        >>=-eq-ok
          (ok_or (known_issuer json decoder keys accepted_identities (text_of json jwt.claims.iss))
            invalid_claims)
          _ h2 in
      let (key, fetched, h4) =
        >>=-eq-ok (looked_up json decoder keys accepted_identities (keys.key issuer jwt.kid)) _
          h3 in
      let (u, signed, h5) =
        >>=-eq-ok (require (keys.verifies key jwt.signing_input jwt.signature) bad_signature) _
          h4 in
      let (v, current, h6) = >>=-eq-ok (require_current json jwt.claims now) _ h5 in
      let (issued_by, configured) =
        known_issuer-eq-some (text_of json jwt.claims.iss) (ok_or-eq-ok _ invalid_claims known) in
      let (expires, expiry, inside) = require_current-eq-ok jwt.claims now current in
      let claimed : Claimed jwt.claims caller = validate_claims-eq-ok jwt.claims caller h6 in
      (
        token,
        jwt,
        borne,
        parsed,
        record {
          issuer = issuer;
          issued_by = issued_by;
          configured = configured;
          key = key;
          looked_up_key = looked_up-eq-ok (keys.key issuer jwt.kid) fetched;
          signed = require-eq-ok _ bad_signature signed;
          expires = expires;
          expiry = expiry;
          current = inside;
          meant_for = claimed.meant_for;
          scoped = claimed.scoped;
          subject = claimed.subject;
          named = claimed.named;
        },
      )
