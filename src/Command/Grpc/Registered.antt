-- ===== src/Command/Grpc/Registered.antt =====
-- Which services `runGrpcServer` of cmd/main.go registers.
use opi_nvidia_bridge.Base.{◌≡◌, refl, List, Memᴰ, All}
use opi_nvidia_bridge.Exec.{◌>>=◌}
use opi_nvidia_bridge.Externals.{Externals}
use opi_nvidia_bridge.Server.{State}
use opi_nvidia_bridge.Command
use opi_nvidia_bridge.Command.{
  Service, frontend_nvme, frontend_virtio_blk, frontend_virtio_scsi, nvme_remote_controller,
  null_volume, malloc_volume, aio_volume, middleend_encryption, middleend_qos_volume, inventory,
  ipsec, System, Implementation, nvidia_frontend, spdk_frontend, spdk_backend, spdk_middleend,
  inventory_server, ipsec_server, Event, registered,
}
use opi_nvidia_bridge.Command.Grpc.{register_services}

ruleset membership = (Memᴰ.head, Memᴰ.tail)

module _ {E : Externals} (Y : System E) where
  -- The event does not register the QoS volumes.
  abbrev pub SparesQos : Event Y → Type 0
  SparesQos (Command.registered service i) = ¬ (service ≡ middleend_qos_volume)
  SparesQos _ = Unit

module _ {E : Externals} (Y : System E) (frontend : State E) (events : List (Event Y)) where
  -- What has happened stays.
  pub register_services-keeps :
      {e : Event Y} → Memᴰ e events → Memᴰ e (register_services Y frontend events).1
  unfolding register_services ◌>>=◌
  register_services-keeps m = Memᴰ.tail (
      Memᴰ.tail (
        Memᴰ.tail
          (Memᴰ.tail (Memᴰ.tail (Memᴰ.tail (Memᴰ.tail (Memᴰ.tail (Memᴰ.tail (Memᴰ.tail m)))))))))

  pub register_services-SparesQos :
      All (SparesQos Y) events → All (SparesQos Y) (register_services Y frontend events).1
  unfolding register_services ◌>>=◌
  register_services-SparesQos h = (
    (λ p. cc p),
    (
      (λ p. cc p),
      (
        (λ p. cc p),
        (
          (λ p. cc p),
          (
            (λ p. cc p),
            ((λ p. cc p), ((λ p. cc p), ((λ p. cc p), ((λ p. cc p), ((λ p. cc p), h))))),
          ),
        ),
      ),
    ),
  )

  -- All services but one are registered.
  pub register_services-registers :
      (service : Service)
      → ¬ (service ≡ middleend_qos_volume)
      → (i : Implementation E) × Memᴰ (registered service i) (register_services Y frontend events).1
  unfolding register_services ◌>>=◌
  register_services-registers frontend_nvme _ =
      (nvidia_frontend frontend, search membership depth 12)
  register_services-registers frontend_virtio_blk _ =
      (nvidia_frontend frontend, search membership depth 12)
  register_services-registers frontend_virtio_scsi _ = (spdk_frontend, search membership depth 12)
  register_services-registers nvme_remote_controller _ = (spdk_backend, search membership depth 12)
  register_services-registers null_volume _ = (spdk_backend, search membership depth 12)
  register_services-registers malloc_volume _ = (spdk_backend, search membership depth 12)
  register_services-registers aio_volume _ = (spdk_backend, search membership depth 12)
  register_services-registers middleend_encryption _ = (spdk_middleend, search membership depth 12)
  register_services-registers middleend_qos_volume other = absurd (other refl)
  register_services-registers inventory _ = (inventory_server, search membership depth 12)
  register_services-registers ipsec _ = (ipsec_server, search membership depth 12)
