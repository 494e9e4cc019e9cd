-- ===== src/Command/Grpc.antt =====
-- `runGrpcServer` of cmd/main.go
pub mod Registered
pub mod Outcome
pub mod Served
pub mod Tls
use opi_nvidia_bridge.Base.{String, true, false, some, List, [], ◌∷◌, ◌++◌, str_eq}
use opi_nvidia_bridge.Exec.{pure, lift, ◌>>=◌, ◌>>◌}
use opi_nvidia_bridge.Externals.{Externals}
use opi_nvidia_bridge.Server.{State, new_server}
use opi_nvidia_bridge.Command.{
  Flags, frontend_nvme, frontend_virtio_blk, frontend_virtio_scsi, nvme_remote_controller,
  null_volume, malloc_volume, aio_volume, middleend_encryption, inventory, ipsec, port_address,
  System, nvidia_frontend, spdk_frontend, spdk_backend, spdk_middleend, inventory_server,
  ipsec_server, ServerOption, credentials, stats_handler, unary_interceptor, started_tracer,
  shut_tracer, listening, made_server, registered, registered_reflection, serving, Process, emit,
  panic_on, or_panic, finally,
}

module _ {E : Externals} (Y : System E) where
  -- The options that `--tls` leads to: none where it is empty.
  unfoldable pub tls_options : String → Process Y (List (ServerOption Y.Credentials))
  unfolding or_panic
  tls_options tls_files = elim (str_eq tls_files "") [
    | true ↦ pure []
    | false ↦ do
      config ← or_panic (Y.parse_tls_files tls_files)
      option ← or_panic (Y.setup_tls_credentials config)
      pure (credentials option ∷ [])
  ]

  -- The registrations, of the frontend that `fe.NewServer` made and of other projects' servers.
  unfoldable pub register_services : State E → Process Y (Unit {0})
  register_services frontend = do
    emit Y (registered frontend_nvme (nvidia_frontend frontend))
    emit Y (registered frontend_virtio_blk (nvidia_frontend frontend))
    emit Y (registered frontend_virtio_scsi spdk_frontend)
    emit Y (registered nvme_remote_controller spdk_backend)
    emit Y (registered null_volume spdk_backend)
    emit Y (registered malloc_volume spdk_backend)
    emit Y (registered aio_volume spdk_backend)
    emit Y (registered middleend_encryption spdk_middleend)
    emit Y (registered inventory inventory_server)
    emit Y (registered ipsec ipsec_server)

  -- What follows the deferred shutdown of the tracer.
  unfoldable pub serve_grpc : Flags → E.Db → Process Y (Unit {0})
  unfolding panic_on tls_options register_services new_server
  serve_grpc flags store = do
    panic_on (Y.listen "tcp" (port_address flags.grpc_port))
    emit Y (listening (port_address flags.grpc_port))
    frontend ← lift (new_server E (some (Y.new_client flags.spdk_address)) (some store) Y.entropy)
    tls ← tls_options flags.tls_files
    emit Y (made_server (tls ++ stats_handler ∷ unary_interceptor ∷ []))
    register_services frontend
    emit Y registered_reflection
    emit Y serving
    panic_on Y.serve

  unfoldable pub run_grpc_server : Flags → E.Db → Process Y (Unit {0})
  unfolding panic_on finally serve_grpc
  run_grpc_server flags store = do
    emit Y (started_tracer "opi-nvidia-bridge")
    finally (serve_grpc flags store) (emit Y shut_tracer >> panic_on Y.shutdown_tracer)
