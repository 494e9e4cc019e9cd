-- ===== src/Command/Gateway.antt =====
-- `runGatewayServer` and `registerGatewayHandler` of cmd/main.go
pub mod Proxied
use opi_nvidia_bridge.Base.{ℤ, String, ◌<>◌}
use opi_nvidia_bridge.Base.Text.{format_int}
use opi_nvidia_bridge.Exec.{◌>>◌}
use opi_nvidia_bridge.Externals.{Externals}
use opi_nvidia_bridge.Command.{
  Service, frontend_nvme, frontend_virtio_blk, frontend_virtio_scsi, nvme_remote_controller,
  null_volume, malloc_volume, aio_volume, middleend_encryption, middleend_qos_volume, inventory,
  port_address, System, proxied, serving_gateway, Process, emit, panic_on,
}

module _ {E : Externals} (Y : System E) where
  unfoldable pub register_gateway_handler : String → Service → Process Y (Unit {0})
  unfolding panic_on
  register_gateway_handler endpoint service = do
    panic_on (Y.register_handler service endpoint)
    emit Y (proxied service endpoint)

  unfoldable pub run_gateway_server : ℤ → ℤ → Process Y (Unit {0})
  unfolding register_gateway_handler panic_on
  run_gateway_server grpc_port http_port = do
    let endpoint = "localhost:" <> format_int grpc_port
    register_gateway_handler endpoint inventory
    register_gateway_handler endpoint aio_volume
    register_gateway_handler endpoint null_volume
    register_gateway_handler endpoint malloc_volume
    register_gateway_handler endpoint nvme_remote_controller
    register_gateway_handler endpoint middleend_encryption
    register_gateway_handler endpoint middleend_qos_volume
    register_gateway_handler endpoint frontend_virtio_blk
    register_gateway_handler endpoint frontend_virtio_scsi
    register_gateway_handler endpoint frontend_nvme
    emit Y (serving_gateway (port_address http_port))
    panic_on Y.listen_and_serve
