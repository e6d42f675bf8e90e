-- ===== src/Server/Managed/Service/Escalation.antt =====
-- managed/service.rs `create`: no one grants a permission that they do not hold.
use sovereign_config.Prelude.{
  ◌≡◌, refl, inl, inr, true, false, some, arith, ok, any, Text, map_err, is_ok, Result-cases,
}
use sovereign_config.Core.Path.{ConfigPath}
use sovereign_config.Core.Managed.{ManagedPermission, ManagedPermissions, holds, parse_display_name}
use sovereign_config.Server.Auth.{AuthenticatedPrincipal, allows}
use sovereign_config.Server.Rpc.{CallContext, principal, actor}
use sovereign_config.Server.Managed.Exec.{World, lift, ◌>>=◌}
use sovereign_config.Server.Managed.Wire.{folded_root, invalid_request}
use sovereign_config.Server.Managed.Provisioning.{ManagedConnectionsService}
use sovereign_config.Server.Managed.Service.{required_permission, may_create, create}

may_create-missing :
    (caller : AuthenticatedPrincipal) (root : ConfigPath) (permissions : ManagedPermissions)
    (permission : ManagedPermission)
    → holds permissions permission ≡ true
    → allows caller root (required_permission permission) ≡ false
    → may_create caller root permissions ≡ false
unfolding may_create any required_permission
may_create-missing caller root permissions ManagedPermission.read held missing = ground arith
may_create-missing caller root permissions ManagedPermission.write held missing = ground arith
may_create-missing caller root permissions ManagedPermission.manage held missing = ground arith

module _ {P : Type 0} (service : ManagedConnectionsService P) where
  -- A `create` that asks for a permission which the caller does not hold on the root fails, and
  -- leaves the tables, the provider and all else as they were.
  pub create-missing :
      (context : CallContext) (display_name root : Text) (permissions : ManagedPermissions)
      (caller : AuthenticatedPrincipal) (folded : ConfigPath) (permission : ManagedPermission)
      (w : World P)
      → principal context ≡ ok caller
      → folded_root root ≡ ok folded
      → holds permissions permission ≡ true
      → allows caller folded (required_permission permission) ≡ false
      → (is_ok (create service context display_name root (some permissions) w).0 ≡ false)
        × ((create service context display_name root (some permissions) w).1 ≡ w)
  unfolding create lift ◌>>=◌ actor
  create-missing context display_name root permissions caller folded permission w known rooted held
        missing =
      elim (Result-cases (map_err (parse_display_name display_name) invalid_request)) [
        | inl (name, e) ↦ rw known (
            rw e (
              rw rooted (
                rw (may_create-missing caller folded permissions permission held missing)
                  (refl, refl))))
        | inr (failure, e) ↦ rw known (rw e (refl, refl))
      ]
