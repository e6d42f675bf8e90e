-- ===== src/Server/Managed/Wire.antt =====
-- managed/wire.rs: a connection's metadata, and the statuses that the operations return.
use sovereign_config.Prelude.{List, [], ◌∷◌, if◌then◌else◌, ok, Text, Result, ◌>>=◌, map_err}
use sovereign_config.Core.Path.{ConfigPath, parse, parse_selection, fold_key}
use sovereign_config.Server.Auth.{Permission, AuthenticatedPrincipal, allows}
use sovereign_config.Core.Connection.{ConnectionUrl}
use sovereign_config.Core.Managed.{
  ManagedConnectionState, ManagedPermissions, parse_state, parse_permissions,
}
use sovereign_config.Server.Rpc.{
  Status, status, invalid_argument, not_found, aborted, unavailable, Timestamp, to_timestamp,
}
use sovereign_config.Server.Managed.Identity.{internal_error}
use sovereign_config.Server.Managed.Exec.{ConnectionRow}

pub record ConnectionMetadata : Type 0 where
  pub connection_id : Text
  pub display_name : Text
  pub root : Text
  pub state : ManagedConnectionState
  pub permissions : ManagedPermissions
  pub created_at : Timestamp
  pub updated_at : Timestamp

-- A connection with the URL that only the operation that minted its credential returns.
pub record ProvisionedConnection : Type 0 where
  pub metadata : ConnectionMetadata
  pub connection_url : ConnectionUrl

unfoldable pub metadata : ConnectionRow → Result Status ConnectionMetadata
unfolding parse_state parse_permissions to_timestamp
metadata row = map_err (parse_state row.state) internal_error >>= λ state.
    map_err (parse_permissions row.permissions) internal_error >>= λ permissions.
    to_timestamp row.created_at >>= λ created_at. to_timestamp row.updated_at >>= λ updated_at.
    ok (record {
      connection_id = row.connection_id;
      display_name = row.display_name;
      root = row.root;
      state = state;
      permissions = permissions;
      created_at = created_at;
      updated_at = updated_at;
    })

abbrev pub invalid_request : Status
invalid_request = status invalid_argument "managed connection request is invalid"

abbrev pub connection_not_found : Status
connection_not_found = status not_found "managed connection not found"

abbrev pub conflict_error : Status
conflict_error = status aborted "managed connection operation is already in progress"

abbrev pub dependency_error : Status
dependency_error = status unavailable "managed connection dependency is unavailable"

-- The rows that the caller manages, as they are reported; the first broken row ends it.
unfoldable pub managed_metadata :
    AuthenticatedPrincipal → List ConnectionRow → Result Status (List ConnectionMetadata)
unfolding parse allows metadata
managed_metadata caller [] = ok []
managed_metadata caller (row ∷ rows) =
    let rest = managed_metadata caller rows in
    map_err (parse row.root) internal_error >>= λ root.
    (if allows caller root Permission.manage
      then (metadata row >>= λ shown. rest >>= λ later. ok (shown ∷ later))
      else rest)

-- The root of a request in its fold, which is always a path that `parse` admits.
abbrev pub folded_root : Text → Result Status ConfigPath
folded_root root = map_err (parse_selection root) invalid_request >>= λ (selected : ConfigPath).
    map_err (parse (fold_key selected)) internal_error
