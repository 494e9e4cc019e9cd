-- ===== src/Command/Process.antt =====
-- `main` of cmd/main.go
pub mod Beside
pub mod Ends
pub mod Cleanup
use opi_nvidia_bridge.Base.{
  ℕ, suc, ltb, if◌then◌else◌, Option, none, some, List, [], ◌∷◌, ◌++◌, length,
}
use opi_nvidia_bridge.Exec.{ok, err, panic, lift, ◌>>=◌, ◌>>◌}
use opi_nvidia_bridge.Externals.{Externals}
use opi_nvidia_bridge.Server.{answered}
use opi_nvidia_bridge.Command.{
  Flags, default_flags, System, opened_store, closed_store, spawned_gateway, Process, emit,
  panic_on, or_panic, finally,
}
use opi_nvidia_bridge.Command.Gateway.{run_gateway_server}
use opi_nvidia_bridge.Command.Grpc.{run_grpc_server}

-- The first `n` events of a list that has the last one first.
unfoldable pub earliest {ℓ} : {A : Type ℓ} → ℕ → List A → List A
earliest n [] = []
earliest n (e ∷ events) =
    let rest = earliest n events in if ltb n (length (e ∷ events)) then rest else e ∷ events

module _ {E : Externals} (Y : System E) where
  -- `go goroutine()` is the first event of `m`. A panic of the goroutine ends the process with no
  -- deferred call of `m`: the schedule tells after how many further events of `m` it does, or that
  -- `m` ends first.
  unfoldable pub beside :
      Process Y (Unit {0}) → Option ℕ → Process Y (Unit {0}) → Process Y (Unit {0})
  unfolding earliest
  beside goroutine none m events = m events
  beside goroutine (some n) m events = elim (goroutine []).0 [
    | ok _ ↦ m events
    | err _ ↦ m events
    | panic ↦ (panic, earliest (suc n) (m []).1 ++ events)
  ]

  -- From the store on. The gateway runs beside the rest.
  unfoldable pub run : Option ℕ → Flags → Process Y (Unit {0})
  unfolding panic_on or_panic finally run_grpc_server run_gateway_server beside
  run schedule flags = do
    store ← or_panic (Y.new_store flags.redis_address)
    emit Y (opened_store flags.redis_address)
    beside (run_gateway_server Y flags.grpc_port flags.http_port) schedule (
        finally
          (emit Y (spawned_gateway flags.grpc_port flags.http_port)
            >> run_grpc_server Y flags store)
          (emit Y closed_store >> panic_on Y.close_store))

  unfoldable pub main : Option ℕ → Process Y (Unit {0})
  unfolding run
  main schedule = do flags ← lift (answered (Y.parse_flags default_flags)); run schedule flags
