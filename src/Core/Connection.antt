-- ===== src/Core/Connection.antt =====
-- crates/sovereign-config-core/src/connection.rs: the connection URL. The crates `url` and
-- `base64`, the parsing of an IP address and the UTF-8 of the standard library are parameters.
use sovereign_config.Prelude.{
  ℕ, Bool, true, false, not, ◌&&◌, ◌||◌, Option, none, some, List, [], ◌∷◌, leb, ◌==◌,
  if◌then◌else◌, is_some, is_none, ok, err, is_empty, all, any, Text, codes, slash, text_eq,
  contains, is_ascii_alphabetic, is_ascii_digit, concat, Result, ◌>>=◌, ok_or, map_err,
}
use sovereign_config.Core.Path.{ConfigPath, parse, fold_key}

-- `url::Url`, as far as the program reads it.
pub record Url : Type 0 where
  pub scheme : Text
  pub host_str : Option Text
  pub username : Text
  pub password : Option Text
  pub query : Option Text
  pub fragment : Option Text
  pub path : Text
  pub as_str : Text
  pub origin : Text

-- What the program calls of other crates: `parse_pairs` and `write_pairs` are `form_urlencoded`,
-- `is_loopback` says whether a text is an IP address of the loopback.
pub record UrlCrates : Type 0 where
  pub parse_url : Text → Option Url
  pub is_loopback : Text → Bool
  pub parse_pairs : Text → List (Text × Text)
  pub write_pairs : List (Text × Text) → Text
  pub url_safe_encode : Text → Text
  pub url_safe_decode : Text → Option Text
  pub standard_encode : Text → Text
  pub from_utf8 : Text → Option Text
  pub to_utf8 : Text → Text

pub record ConnectionUrl : Type 0 where
  pub canonical : Text
  pub endpoint : Text
  pub root : ConfigPath
  pub issuer : Text
  pub client_id : Text
  pub client_authentication : Option Text

pub data ConnectionUrlError : Type 0 where
  malformed : ConnectionUrlError

-- The pairs of a fragment, each key at most once.
pub record FragmentFields : Type 0 where
  pub version : Option Text
  pub issuer : Option Text
  pub client_id : Option Text
  pub client_secret : Option Text

abbrev pub require : Bool → Result ConnectionUrlError (Unit {0})
require true = ok tt
require false = err malformed

-- `target.replace(value).is_some()` refuses the pair.
abbrev pub fresh_field {ℓ} : {A : Type ℓ} → Option Text → A → Result ConnectionUrlError A
fresh_field none fields = ok fields
fresh_field (some _) fields = err malformed

unfoldable pub add_field : FragmentFields → Text → Text → Result ConnectionUrlError FragmentFields
unfolding text_eq
add_field fields key value =
    if text_eq key (codes "v")
    then fresh_field fields.version (record fields { version = some value })
    else if text_eq key (codes "issuer")
    then fresh_field fields.issuer (record fields { issuer = some value })
    else if text_eq key (codes "client_id")
    then fresh_field fields.client_id (record fields { client_id = some value })
    else if text_eq key (codes "client_secret")
    then fresh_field fields.client_secret (record fields { client_secret = some value })
    else err malformed

unfoldable pub read_fields :
    FragmentFields → List (Text × Text) → Result ConnectionUrlError FragmentFields
unfolding add_field
read_fields fields [] = ok fields
read_fields fields ((key, value) ∷ pairs) =
    add_field fields key value >>= λ fields'. read_fields fields' pairs

-- A byte that a client id admits.
abbrev is_client_id_byte : ℕ → Bool
is_client_id_byte byte =
    is_ascii_alphabetic byte
    || is_ascii_digit byte
    || byte == b'-'
    || byte == b'.'
    || byte == b'_'
    || byte == b'~'

unfoldable pub ends_with_slash : Text → Bool
ends_with_slash [] = false
ends_with_slash (c ∷ []) = c == slash
ends_with_slash (c ∷ (d ∷ s)) = ends_with_slash (d ∷ s)

abbrev without_slash : ℕ → Text → Text
without_slash c [] = if c == slash then [] else c ∷ []
without_slash c (d ∷ s) = c ∷ (d ∷ s)

-- `trim_end_matches('/')`
unfoldable pub trim_end_slashes : Text → Text
trim_end_slashes [] = []
trim_end_slashes (c ∷ s) = without_slash c (trim_end_slashes s)

-- `split_once(':')`
unfoldable pub split_at_colon : Text → Option (Text × Text)
split_at_colon [] = none
split_at_colon (c ∷ s) =
    if c == b':'
    then some ([], s)
    else elim (split_at_colon s) [ none ↦ none | some (before, after) ↦ some (c ∷ before, after) ]

-- `is_ascii_control`
abbrev is_ascii_control : ℕ → Bool
is_ascii_control c = leb c 31 || c == 127

abbrev is_text : Option Text → Text → Bool
is_text none t = false
is_text (some s) t = text_eq s t

module _ (crates : UrlCrates) where
  abbrev loopback_host : Option Text → Bool
  loopback_host none = false
  loopback_host (some host) = crates.is_loopback host

  unfoldable pub valid_secure_origin : Url → Bool
  unfolding text_eq
  valid_secure_origin url =
      is_some url.host_str
      && (text_eq url.scheme (codes "https")
          || (text_eq url.scheme (codes "http") && loopback_host url.host_str))

  unfoldable pub validate_endpoint : Url → Result ConnectionUrlError (Unit {0})
  unfolding valid_secure_origin
  validate_endpoint url = require (
      valid_secure_origin url && is_empty url.username && is_none url.password && is_none url.query)

  unfoldable pub canonical_issuer : Text → Result ConnectionUrlError Text
  unfolding valid_secure_origin ends_with_slash text_eq
  canonical_issuer value = ok_or (crates.parse_url value) malformed >>= λ issuer.
      require (
        valid_secure_origin issuer
        && is_empty issuer.username
        && is_none issuer.password
        && is_none issuer.query
        && is_none issuer.fragment
        && ends_with_slash issuer.path)
      >>= λ _. (if text_eq issuer.as_str value then ok issuer.as_str else err malformed)

  unfoldable pub parse_root : Text → Result ConnectionUrlError ConfigPath
  parse_root path = map_err (parse path) malformed

  unfoldable pub parse_client_authentication : Text → Result ConnectionUrlError Text
  unfolding contains text_eq split_at_colon any
  parse_client_authentication value = require (not (is_empty value || contains value b'=')) >>= λ _.
      ok_or (crates.url_safe_decode value) malformed >>= λ decoded.
      require (text_eq (crates.url_safe_encode decoded) value) >>= λ _.
      ok_or (crates.from_utf8 decoded) malformed >>= λ decoded_text.
      ok_or (split_at_colon decoded_text) malformed >>= λ (parts : Text × Text).
      require (not (is_empty parts.0 || is_empty parts.1 || any is_ascii_control decoded_text))
      >>= λ _. ok (crates.standard_encode decoded)

  abbrev secret_pair : Option Text → List (Text × Text)
  secret_pair none = []
  secret_pair (some client_secret) =
      if text_eq client_secret (codes "*") then [] else (codes "client_secret", client_secret) ∷ []

  unfoldable pub serialize : Text → ConfigPath → Text → Text → Option Text → Text
  unfolding text_eq concat
  serialize endpoint root issuer client_id client_secret = concat (
      endpoint
      ∷ (fold_key root
          ∷ (codes "#"
              ∷ (crates.write_pairs (
                    (codes "v", codes "1")
                    ∷ ((codes "issuer", issuer)
                        ∷ ((codes "client_id", client_id) ∷ secret_pair client_secret)))
                  ∷ ((if is_text client_secret (codes "*") then codes "&client_secret=*" else [])
                      ∷ [])))))

  abbrev authentication_of : Option Text → Result ConnectionUrlError (Option Text)
  authentication_of none = ok none
  authentication_of (some value) =
      parse_client_authentication value >>= λ authentication. ok (some authentication)

  unfoldable pub parse_connection : Text → Result ConnectionUrlError ConnectionUrl
  unfolding validate_endpoint parse_root read_fields canonical_issuer parse_client_authentication
      serialize text_eq
  parse_connection value = ok_or (crates.parse_url value) malformed >>= λ url.
      validate_endpoint url >>= λ _. parse_root url.path >>= λ root.
      ok_or url.fragment malformed >>= λ fragment.
      read_fields (record { version = none; issuer = none; client_id = none; client_secret = none })
        (crates.parse_pairs fragment)
      >>= λ fields. require (is_text fields.version (codes "1")) >>= λ _.
          ok_or fields.issuer malformed >>= λ given. canonical_issuer given >>= λ issuer.
          ok_or fields.client_id malformed >>= λ client_id.
          require (not (is_empty client_id) && all is_client_id_byte client_id) >>= λ _.
          authentication_of fields.client_secret >>= λ client_authentication.
          (let canonical = serialize url.origin root issuer client_id fields.client_secret in
            if text_eq canonical value
            then ok (record {
              canonical = canonical;
              endpoint = url.origin;
              root = root;
              issuer = issuer;
              client_id = client_id;
              client_authentication = client_authentication;
            })
            else err malformed)

  -- `ConnectionUrl::managed`
  unfoldable pub managed_url :
      Text → ConfigPath → Text → Text → Text → Text → Result ConnectionUrlError ConnectionUrl
  unfolding validate_endpoint trim_end_slashes contains serialize parse_connection concat text_eq
  managed_url public_origin root issuer client_id username app_password =
      ok_or (crates.parse_url public_origin) malformed >>= λ origin.
      require (text_eq origin.path (codes "/") && is_none origin.fragment) >>= λ _.
      validate_endpoint origin >>= λ _.
      require (text_eq origin.origin (trim_end_slashes public_origin)) >>= λ _.
      require (not (contains username b':')) >>= λ _.
      (let credential = concat (username ∷ (codes ":" ∷ (app_password ∷ []))) in
        let client_secret = crates.url_safe_encode (crates.to_utf8 credential) in
        parse_connection (serialize origin.origin root issuer client_id (some client_secret)))

  -- `ConnectionUrl::redacted`, which `Debug` and `Display` print
  unfoldable pub redacted : ConnectionUrl → Text
  unfolding serialize
  redacted url =
      serialize url.endpoint url.root url.issuer url.client_id
        (elim url.client_authentication [ none ↦ none | some _ ↦ some (codes "*") ])
