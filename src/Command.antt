-- ===== src/Command.antt =====
-- cmd/main.go: the process, by the events that it causes, and what it calls of other packages.
pub mod Rules
pub mod Grpc
pub mod Gateway
pub mod Process
use opi_nvidia_bridge.Base.{ℤ, pos, String, ◌<>◌, Option, none, some, List, ◌∷◌}
use opi_nvidia_bridge.Base.Text.{format_int}
use opi_nvidia_bridge.Error.{Error}
use opi_nvidia_bridge.Exec.{Result, ok, err, panic, Exec}
use opi_nvidia_bridge.Externals.{Externals, Answer, value, failure}
use opi_nvidia_bridge.Server.{State}

-- The variables that `main` binds to flags.
pub record Flags : Type 0 where
  pub grpc_port : ℤ
  pub http_port : ℤ
  pub spdk_address : String
  pub tls_files : String
  pub redis_address : String

abbrev pub default_flags : Flags
default_flags = record {
  grpc_port = pos 50051;
  http_port = pos 8082;
  spdk_address = "/var/tmp/spdk.sock";
  tls_files = "";
  redis_address = "127.0.0.1:6379";
}

-- The services of the API that `main` names.
pub data Service : Type 0 where
  frontend_nvme frontend_virtio_blk frontend_virtio_scsi : Service
  nvme_remote_controller null_volume malloc_volume aio_volume : Service
  middleend_encryption middleend_qos_volume : Service
  inventory ipsec : Service

-- `fmt.Sprintf(":%d", port)`
abbrev pub port_address : ℤ → String
port_address port = ":" <> format_int port

module _ (E : Externals) where
  -- What the process calls, by its answer. An error of `flag.Parse` ends the process.
  pub record System : Type 1 where
    pub parse_flags : Flags → Answer Flags
    pub new_store : String → Answer E.Db
    pub close_store : Option Error
    pub shutdown_tracer : Option Error
    pub listen : String → String → Option Error
    pub new_client : String → E.Device
    pub entropy : E.Entropy
    pub TlsConfig : Type 0
    pub Credentials : Type 0
    pub parse_tls_files : String → Answer TlsConfig
    pub setup_tls_credentials : TlsConfig → Answer Credentials
    pub serve : Option Error
    pub register_handler : Service → String → Option Error
    pub listen_and_serve : Option Error

  -- The objects that serve: this bridge's own, with the state that it starts in, and other
  -- projects'.
  pub data Implementation : Type 0 where
    nvidia_frontend : State E → Implementation
    spdk_frontend spdk_backend spdk_middleend inventory_server ipsec_server : Implementation

-- `grpc.ServerOption`; the interceptor logs the start, the end and the payloads of a call.
pub data ServerOption (Credentials : Type 0) : Type 0 where
  credentials : Credentials → ServerOption Credentials
  stats_handler unary_interceptor : ServerOption Credentials

module _ {E : Externals} (Y : System E) where
  pub data Event : Type 0 where
    opened_store : String → Event
    closed_store : Event
    spawned_gateway : ℤ → ℤ → Event
    started_tracer : String → Event
    shut_tracer : Event
    listening : String → Event
    made_server : List (ServerOption Y.Credentials) → Event
    registered : Service → Implementation E → Event
    registered_reflection : Event
    -- `s.Serve(lis)`
    serving : Event
    -- a handler of the gateway, with the endpoint that it calls
    proxied : Service → String → Event
    -- `server.ListenAndServe()`
    serving_gateway : String → Event

  -- A part of the process; its state is the list of the events so far, the last one first.
  abbrev pub Process : Type 0 → Type 0
  Process A = Exec (List Event) A

  abbrev pub emit : Event → Process (Unit {0})
  emit e events = (ok tt, e ∷ events)

-- `if err != nil { log.Panic(err) }`
unfoldable pub panic_on {ℓ} : {S : Type ℓ} → Option Error → Exec S (Unit {0})
panic_on o s = elim o [ none ↦ (ok tt, s) | some e ↦ (panic, s) ]

-- The same where the call gives a value too.
unfoldable pub or_panic {ℓ κ} : {S : Type ℓ} {A : Type κ} → Answer A → Exec S A
or_panic a s = elim a [ value x ↦ (ok x, s) | failure e ↦ (panic, s) ]

-- `defer d()` before `m`: `d` runs however `m` ends, and a panic of `d` is one of the whole.
unfoldable pub finally {ℓ κ} : {S : Type ℓ} {A : Type κ} → Exec S A → Exec S (Unit {0}) → Exec S A
finally m d s =
    let (r, t) = m s in let (q, u) = d t in (elim q [ ok _ ↦ r | err e ↦ err e | panic ↦ panic ], u)
