-- ===== src/Server/Managed/Service/Transitions.antt =====
-- managed/service.rs: which states an operation takes a connection through.
use sovereign_config.Prelude.{◌≡◌, ◌⊎◌, inl, none, ok, err, Text, Result}
use sovereign_config.Core.Managed.{ConnectionId, revoking}
use sovereign_config.Server.Rpc.{Status, CallContext}
use sovereign_config.Server.Managed.Exec.{World, Tables, Exec}
use sovereign_config.Server.Managed.Exec.Rules.{Outcome}
use sovereign_config.Server.Managed.Lifecycle.{in_state, Moves, ended-Moves, AllMove, AllMove-refl}
use sovereign_config.Server.Managed.Lifecycle.Rules.{OthersMove, Out, Stays}
use sovereign_config.Server.Managed.Store.Rows.{state_at}
use sovereign_config.Server.Managed.Provisioning.{ManagedConnectionsService}
use sovereign_config.Server.Managed.Service.{rotate}
use sovereign_config.Server.Managed.Service.Lifecycle.{Stays-rotate}

module _ {P : Type 0} where
  module _ {A : Type 0} where
    Out-either :
        (start : Tables) (r : Result Status A × World P)
        → Outcome (λ _. Out start) (Out start) r
        → Out start r.1
    Out-either start (ok a, w) o = o
    Out-either start (err e, w) o = o

    moved_by :
        (m : Exec P A)
        → ((start : Tables) → Stays start m)
        → (w : World P) → OthersMove w.others
        → AllMove w.committed (m w).1.committed
    moved_by m k w others =
        (Out-either w.committed (m w) (
          (k w.committed).triple.at w
            (record { others = others; moved = AllMove-refl w.committed }))).moved

module _ {P : Type 0} (service : ManagedConnectionsService P) where
  -- A `rotate`, whether it succeeds or fails and whatever others do meanwhile along the lifecycle,
  -- takes every connection only along the steps of the lifecycle, and makes none.
  pub rotate-Moves :
      (context : CallContext) (connection_id : Text) (id : ConnectionId) (w : World P)
      → OthersMove w.others
      → Moves
          (state_at id w.committed)
          (state_at id (rotate service context connection_id w).1.committed)
  rotate-Moves context connection_id id w others =
      (moved_by (rotate service context connection_id)
          (λ start. Stays-rotate service start context connection_id) w others).at
        id

  -- No `rotate` brings a connection back that a revocation has claimed: after it the connection is
  -- still `revoking` or its row is gone, whatever others do meanwhile along the lifecycle short of
  -- creating connections.
  pub rotate-revoking :
      (context : CallContext) (connection_id : Text) (id : ConnectionId) (w : World P)
      → OthersMove w.others
      → state_at id w.committed ≡ in_state revoking
      → (state_at id (rotate service context connection_id w).1.committed ≡ in_state revoking)
        ⊎ (state_at id (rotate service context connection_id w).1.committed ≡ none)
  rotate-revoking context connection_id id w others claimed =
      ended-Moves (rotate-Moves context connection_id id w others) (inl claimed)
