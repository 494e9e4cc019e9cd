-- ===== src/Command/Process/Ends.antt =====
-- The ends of `main` of cmd/main.go: the statement.
use opi_nvidia_bridge.Base.{
  ℕ, suc, length, Option, some, ◌≡◌, List, [], ◌∷◌, ◌++◌, ◌⊎◌, none, Memᴰ, All,
}
use opi_nvidia_bridge.Error.{Error}
use opi_nvidia_bridge.Exec.{Result, ok, err, panic}
use opi_nvidia_bridge.Externals.{Externals, value, failure}
use opi_nvidia_bridge.Command
use opi_nvidia_bridge.Command.{
  Flags, default_flags, System, Event, Process, opened_store, closed_store, spawned_gateway,
  started_tracer, shut_tracer, serving, registered_reflection, made_server, listening, port_address,
  emit, panic_on, finally,
}
use opi_nvidia_bridge.Command.Grpc.Outcome.{Unheard, BadTls}
use opi_nvidia_bridge.Command.Gateway.{run_gateway_server}

module _ {E : Externals} (Y : System E) where
  -- The event neither opens nor closes what `main` has to release.
  abbrev pub Plain : Event Y → Type 0
  Plain (Command.opened_store _) = ⊥
  Plain Command.closed_store = ⊥
  Plain (Command.started_tracer _) = ⊥
  Plain Command.shut_tracer = ⊥
  Plain _ = Unit

  -- `main` succeeded: the server has served, and nothing went wrong at the end.
  pub record Succeeds (r : Result (Unit {0})) (inner : List (Event Y)) : Type 0 where
    pub result : r ≡ ok tt
    pub served : Memᴰ serving inner
    pub serve_ok : Y.serve ≡ none
    pub shutdown_ok : Y.shutdown_tracer ≡ none
    pub close_ok : Y.close_store ≡ none

  -- Why `main` panics once the store is open, where the gateway does not end the process.
  pub data IsTroubled (flags : Flags) : Type 0 where
    unheard : Unheard Y flags → IsTroubled flags
    bad_tls : BadTls Y flags.tls_files → IsTroubled flags
    unserved : (e : Error) → Y.serve ≡ some e → IsTroubled flags
    unshut : (e : Error) → Y.shutdown_tracer ≡ some e → IsTroubled flags
    unclosed : (e : Error) → Y.close_store ≡ some e → IsTroubled flags

  abbrev pub Ending : Flags → Result (Unit {0}) → List (Event Y) → Type 0
  Ending flags r inner = ((r ≡ panic) × IsTroubled flags) ⊎ Succeeds r inner

  -- All that `main` does with an open store: the gateway is spawned and the tracer started, and
  -- whatever happens then, the tracer is shut and at last the store is closed.
  pub record Whole (flags : Flags) (r : Result (Unit {0})) (events : List (Event Y)) : Type 0 where
    pub inner : List (Event Y)
    pub plain : All Plain inner
    pub events_eq :
        events
        ≡ (closed_store ∷ shut_tracer ∷ inner ++ started_tracer "opi-nvidia-bridge" ∷ [])
          ++ spawned_gateway flags.grpc_port flags.http_port ∷ opened_store flags.redis_address ∷ []
    pub ending : Ending flags r inner

  abbrev pub gateway : Flags → Process Y (Unit {0})
  gateway flags = run_gateway_server Y flags.grpc_port flags.http_port

  -- The gateway panicked, and the process ended with it: of all that `main` does with an open store
  -- the last events are lost, so that `n` are left after the spawning, or there were not as many.
  pub record Cut (flags : Flags) (n : ℕ) (r : Result (Unit {0})) (events : List (Event Y))
      : Type 0 where
    pub result : r ≡ panic
    pub gateway_panics : (gateway flags []).0 ≡ panic
    pub whole_result : Result (Unit {0})
    pub lost : List (Event Y)
    pub whole : Whole flags whole_result (lost ++ events)
    pub after : List (Event Y)
    pub events_eq :
        events
        ≡ after
          ++ spawned_gateway flags.grpc_port flags.http_port ∷ opened_store flags.redis_address ∷ []
    pub exact :
        (lost ≡ [])
        ⊎ (length (after ++ spawned_gateway flags.grpc_port flags.http_port ∷ []) ≡ suc n)

  -- The four ends of `main`: bad flags end it, with nothing done; no store, and it panics, with
  -- nothing done; or the store is opened, and all is done that follows; or only a first part of it,
  -- since the gateway has panicked.
  pub data Runs (schedule : Option ℕ) (r : Result (Unit {0})) (events : List (Event Y))
      : Type 0 where
    stops :
        (e : Error)
        → Y.parse_flags default_flags ≡ failure e
        → r ≡ err e
        → events ≡ []
        → Runs schedule r events
    refuses :
        (flags : Flags) (e : Error)
        → Y.parse_flags default_flags ≡ value flags
        → Y.new_store flags.redis_address ≡ failure e
        → r ≡ panic
        → events ≡ []
        → Runs schedule r events
    runs :
        (flags : Flags) (store : E.Db)
        → Y.parse_flags default_flags ≡ value flags
        → Y.new_store flags.redis_address ≡ value store
        → (¬ ((gateway flags []).0 ≡ panic)) ⊎ (schedule ≡ none)
        → Whole flags r events
        → Runs schedule r events
    dies :
        (flags : Flags) (store : E.Db) (n : ℕ)
        → Y.parse_flags default_flags ≡ value flags
        → Y.new_store flags.redis_address ≡ value store
        → schedule ≡ some n
        → Cut flags n r events
        → Runs schedule r events
