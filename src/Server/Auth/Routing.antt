-- ===== src/Server/Auth/Routing.antt =====
-- auth.rs: which requests reach the service without a principal. The service that a request then
-- reaches is not part of this; `served` is the list of served protocol versions.
use sovereign_config.Prelude.{
  ℕ, ◌≡◌, ap, ◌∙◌, ◌≢◌, ◌⊎◌, inl, inr, Bool, true, false, not, ◌&&◌, ◌||◌, Option, none, some, List,
  [], ◌∷◌, ◌++◌, arith, if◌then◌else◌, Bool-cases, Option-cases, any, Text, codes, text_eq,
  text_eq_sound, strip_prefix, starts_with, strip_prefix_sound,
}

-- `http::Method`, as far as it is told apart.
pub data Method : Type 0 where
  get head other : Method

abbrev pub handshake_rpc : Text
handshake_rpc = codes "/sovereign.config.Handshake/Negotiate"

abbrev pub operational_rpcs : List Text
operational_rpcs =
    codes "/grpc.health.v1.Health/Check"
    ∷ (codes "/grpc.health.v1.Health/Watch" ∷ (handshake_rpc ∷ []))

abbrev extended : ℕ → Option Text → Option Text
extended c none = none
extended c (some s) = some (c ∷ s)

-- `str::strip_suffix`, the text first
unfoldable pub strip_suffix : Text → Text → Option Text
unfolding text_eq
strip_suffix [] suffix = if text_eq [] suffix then some [] else none
strip_suffix (c ∷ s) suffix =
    let rest = strip_suffix s suffix in if text_eq (c ∷ s) suffix then some [] else extended c rest

abbrev version_prefix : Text
version_prefix = codes "/sovereign.config."

abbrev version_suffix : Text
version_suffix = codes ".System/GetVersion"

abbrev suffix_off : Option Text → Option Text
suffix_off none = none
suffix_off (some rest) = strip_suffix rest version_suffix

abbrev is_served : List Text → Option Text → Bool
is_served served none = false
is_served served (some version) = any (text_eq version) served

unfoldable pub is_unauthenticated_version_handshake : List Text → Text → Bool
unfolding strip_prefix strip_suffix any text_eq
is_unauthenticated_version_handshake served path =
    is_served served (suffix_off (strip_prefix path version_prefix))

unfoldable pub is_operational_rpc : List Text → Text → Bool
unfolding is_unauthenticated_version_handshake any text_eq
is_operational_rpc served path =
    any (text_eq path) operational_rpcs || is_unauthenticated_version_handshake served path

unfoldable pub is_client_telemetry_path : Text → Bool
unfolding text_eq starts_with
is_client_telemetry_path path = text_eq path (codes "/v1") || starts_with path (codes "/v1/")

abbrev reads : Method → Bool
reads get = true
reads head = true
reads other = false

unfoldable pub is_web_asset_request : List Text → Method → Text → Bool
unfolding is_operational_rpc
is_web_asset_request served method path = reads method && not (is_operational_rpc served path)

-- What becomes of a request before the inner service sees it.
pub data Gate : Type 0 where
  refused_telemetry passed_on authenticated_first : Gate

-- `AuthenticationService::call`, up to the authentication
unfoldable pub gate : List Text → Method → Text → Gate
unfolding is_client_telemetry_path is_web_asset_request is_operational_rpc
gate served method path =
    if is_client_telemetry_path path
    then refused_telemetry
    else if is_web_asset_request served method path || is_operational_rpc served path
    then passed_on
    else authenticated_first

strip_suffix_sound : (s suffix : Text) {r : Text} → strip_suffix s suffix ≡ some r → s ≡ r ++ suffix
unfolding strip_suffix
strip_suffix_sound [] suffix {r} h = elim (Bool-cases (text_eq [] suffix)) [
  | inl e ↦
      let same : [] ≡ r = ground (arith, e, h) in
      text_eq_sound [] suffix e ∙ ap (λ (t : Text). t ++ suffix) same
  | inr e ↦ absurd (ground (arith, e, h))
]
strip_suffix_sound (c ∷ s) suffix {r} h = elim (Bool-cases (text_eq (c ∷ s) suffix)) [
  | inl e ↦
      let same : [] ≡ r = ground (arith, e, h) in
      text_eq_sound (c ∷ s) suffix e ∙ ap (λ (t : Text). t ++ suffix) same
  | inr e ↦ elim (Option-cases (strip_suffix s suffix)) [
    | inl none_left ↦ absurd (ground (arith, e, none_left, h))
    | inr (rest, found) ↦
        let same : c ∷ rest ≡ r = ground (arith, e, found, h) in
        ap (λ (t : Text). c ∷ t) (strip_suffix_sound s suffix found)
        ∙ ap (λ (t : Text). t ++ suffix) same
  ]
]

-- A version handshake that needs no authentication names a served version.
handshake_sound :
    (served : List Text) (path : Text)
    → is_unauthenticated_version_handshake served path ≡ true
    → (version : Text) × (any (text_eq version) served ≡ true)
      × (path ≡ codes "/sovereign.config." ++ (version ++ codes ".System/GetVersion"))
unfolding is_unauthenticated_version_handshake
handshake_sound served path h = elim (Option-cases (strip_prefix path version_prefix)) [
  | inl e ↦ absurd (ground (arith, e, h))
  | inr (rest, e) ↦ elim (Option-cases (strip_suffix rest version_suffix)) [
    | inl e' ↦ absurd (ground (arith, e, e', h))
    | inr (version, e') ↦ (
      version,
      ground (arith, e, e', h),
      strip_prefix_sound path version_prefix e
          ∙ ap (λ (t : Text). version_prefix ++ t) (strip_suffix_sound rest version_suffix e'),
    )
  ]
]

-- A request that is passed on with no authentication reads by `GET` or `HEAD`, or is for one of the
-- operational RPCs, or for the `GetVersion` of a protocol version that is served.
pub gate-passed_on :
    (served : List Text) (method : Method) (path : Text)
    → gate served method path ≡ passed_on
    → (method ≢ other)
      ⊎ (any (text_eq path) operational_rpcs ≡ true)
      ⊎ ((version : Text) × (any (text_eq version) served ≡ true)
          × (path ≡ codes "/sovereign.config." ++ (version ++ codes ".System/GetVersion")))
unfolding gate is_web_asset_request
gate-passed_on served get path h = inl (λ e. cc)
gate-passed_on served head path h = inl (λ e. cc)
gate-passed_on served other path h = elim (Bool-cases (any (text_eq path) operational_rpcs)) [
  | inl e ↦ inr (inl e)
  | inr e ↦ inr (inr (handshake_sound served path (unfold is_operational_rpc in ground arith)))
]
