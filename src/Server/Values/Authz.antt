-- ===== src/Server/Values/Authz.antt =====
-- values/authz.rs: the path of a request is parsed first, then the caller is asked for, then every
-- permission is required.
use sovereign_config.Prelude.{
  ◌>>=◌, >>=-eq-ok, map_err-eq-ok, ok_or-eq-ok, any-not, ◌≡◌, Bool, true, not, some, List, arith,
  if◌then◌else◌, ok, err, all, any, Text, Result, ◌>>=◌, map_err, >>=-eq-ok, map_err-eq-ok,
  ok_or-eq-ok, any-not,
}
use sovereign_config.Core.Path.{PathError, ConfigPath, parse_operation, parse_selection}
use sovereign_config.Server.Auth.{AuthenticatedPrincipal, Permission, allows}
use sovereign_config.Server.Rpc.{
  Status, status, invalid_argument, permission_denied, CallContext, principal,
}

abbrev pub path_is_invalid : Status
path_is_invalid = status invalid_argument "configuration path is invalid"

abbrev pub not_permitted : Status
not_permitted = status permission_denied "configuration operation is not permitted"

abbrev require_all :
    AuthenticatedPrincipal → ConfigPath → List Permission → Result Status ConfigPath
require_all caller path permissions =
    if any (λ permission. not (allows caller path permission)) permissions
    then err not_permitted
    else ok path

-- A selection may be the tree root, an operation may not.
abbrev pub request_path : Bool → Text → Result PathError ConfigPath
request_path allow_root path = if allow_root then parse_selection path else parse_operation path

unfoldable pub authorize : CallContext → Text → List Permission → Bool → Result Status ConfigPath
authorize context path permissions allow_root = do
  selected ← map_err (request_path allow_root path) path_is_invalid
  caller ← principal context
  require_all caller selected permissions

require_all_sound :
    (caller : AuthenticatedPrincipal) (path : ConfigPath) (permissions : List Permission)
    {p : ConfigPath}
    → require_all caller path permissions ≡ ok p
    → (all (allows caller path) permissions ≡ true) × (path ≡ p)
require_all_sound caller path permissions h =
    ground (arith, any-not (allows caller path) permissions)

-- `authorize` answers `ok` only with the parsed path, for a caller that has every permission on it.
pub authorize_sound :
    (context : CallContext) (path : Text) (permissions : List Permission) (allow_root : Bool)
    (p : ConfigPath)
    → authorize context path permissions allow_root ≡ ok p
    → (caller : AuthenticatedPrincipal) × (context.principal ≡ some caller)
      × (all (allows caller p) permissions ≡ true)
      × (request_path allow_root path ≡ ok p)
unfolding authorize principal
authorize_sound context path permissions allow_root p h =
    let (selected, parsed, h₁) =
      >>=-eq-ok (map_err (request_path allow_root path) path_is_invalid) _ h in
    let (caller, known, h₂) = >>=-eq-ok (principal context) _ h₁ in
    let (allowed, same) = require_all_sound caller selected permissions h₂ in
    (
      caller,
      ok_or-eq-ok context.principal _ known,
      rw (← same) allowed,
      rw (← same) (map_err-eq-ok (request_path allow_root path) path_is_invalid parsed),
    )
