-- ===== src/Command/Process/Cleanup.antt =====
-- How `main` of cmd/main.go ends, and that it releases what it has opened.
use opi_nvidia_bridge.Base.{List}
use opi_nvidia_bridge.Error.{Error}
use opi_nvidia_bridge.Exec.{◌>>◌}
use opi_nvidia_bridge.Exec.Rules.{Ends}
use opi_nvidia_bridge.Externals.{Externals}
use opi_nvidia_bridge.Command.{
  Flags, System, Process, closed_store, spawned_gateway, emit, panic_on, finally,
}
use opi_nvidia_bridge.Command.Grpc.{run_grpc_server}
use opi_nvidia_bridge.Command.Grpc.Outcome
use opi_nvidia_bridge.Command.Grpc.Outcome.{Unheard, BadTls}

module _ {E : Externals} (Y : System E) where
  -- All that follows the opening of the store, but for the gateway.
  abbrev rest : Flags → E.Db → Process Y (Unit {0})
  rest flags store =
      finally
        (emit Y (spawned_gateway flags.grpc_port flags.http_port) >> run_grpc_server Y flags store)
        (emit Y closed_store >> panic_on Y.close_store)
