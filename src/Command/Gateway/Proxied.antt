-- ===== src/Command/Gateway/Proxied.antt =====
-- The gateway of cmd/main.go against the gRPC server that it calls.
use opi_nvidia_bridge.Base.{
  ℤ, String, ◌<>◌, ◌≡◌, refl, sym, subst, ◌∙◌, ◌⊎◌, inl, inr, Option, none, some, List, [], ◌∷◌,
  Memᴰ, All, All-at,
}
use opi_nvidia_bridge.Base.Text.{format_int}
use text.Mathlib.TextLemmas.{append_assoc}
use opi_nvidia_bridge.Error.{Error}
use opi_nvidia_bridge.Exec.{Result, Exec, ◌>>=◌, ◌>>◌}
use opi_nvidia_bridge.Exec.Rules.{Ends, done}
use opi_nvidia_bridge.Externals.{Externals}
use opi_nvidia_bridge.Command
use opi_nvidia_bridge.Command.{
  Flags, Service, middleend_qos_volume, ipsec, frontend_nvme, frontend_virtio_blk,
  frontend_virtio_scsi, nvme_remote_controller, null_volume, malloc_volume, aio_volume,
  middleend_encryption, inventory, port_address, System, ServerOption, Implementation, Event,
  started_tracer, shut_tracer, listening, registered, serving, proxied, emit, panic_on,
}
use opi_nvidia_bridge.Command.Rules.{emit_rule, panic_on-cases}
use opi_nvidia_bridge.Command.Grpc.{run_grpc_server}
use opi_nvidia_bridge.Command.Grpc.Outcome.{fresh}
use opi_nvidia_bridge.Command.Grpc.Registered.{
  SparesQos, register_services-keeps, register_services-SparesQos, register_services-registers,
}
use opi_nvidia_bridge.Command.Grpc.Served.{before, served, run_grpc_server-served}
use opi_nvidia_bridge.Command.Gateway.{register_gateway_handler, run_gateway_server}

abbrev endpoint_of : ℤ → String
endpoint_of grpc_port = "localhost:" <> format_int grpc_port

module _ {E : Externals} (Y : System E) (grpc_port : ℤ) where
  -- A handler of the gateway is of another service than IPsec's, and calls the port.
  abbrev Proxies : Event Y → Type 0
  Proxies (Command.proxied service endpoint) =
      (¬ (service ≡ ipsec)) × (endpoint ≡ endpoint_of grpc_port)
  Proxies _ = Unit

  abbrev Proxying {ℓ} : {A : Type ℓ} → Result A × List (Event Y) → Type 0
  Proxying (r, t) = All Proxies t

  handler_rule :
      (service : Service) (k : Exec (List (Event Y)) (Unit {0})) (s : List (Event Y))
      → ¬ (service ≡ ipsec)
      → ((t : List (Event Y)) → All Proxies t → Ends Proxying (k t))
      → All Proxies s
      → Ends Proxying ((register_gateway_handler Y (endpoint_of grpc_port) service >> k) s)
  unfolding register_gateway_handler panic_on ◌>>=◌
  handler_rule service k s other h p = split (Y.register_handler service endpoint)
    where
      endpoint : String
      endpoint = endpoint_of grpc_port

      split :
          (o : Option Error)
          → Ends Proxying (((panic_on o >> emit Y (proxied service endpoint)) >> k) s)
      split none = h (proxied service endpoint ∷ s) ((other, refl), p)
      split (some e) = done p

  run_gateway_server-Proxying :
      (http_port : ℤ) → All Proxies (run_gateway_server Y grpc_port http_port []).1
  unfolding run_gateway_server
  run_gateway_server-Proxying http_port = ends.holds
    where
      next :
          (service : Service) (k : Exec (List (Event Y)) (Unit {0}))
          → ¬ (service ≡ ipsec)
          → ((t : List (Event Y)) → All Proxies t → Ends Proxying (k t))
          → (t : List (Event Y)) → All Proxies t
          → Ends Proxying ((register_gateway_handler Y (endpoint_of grpc_port) service >> k) t)
      next service k other h t = handler_rule service k t other h

      last : (t : List (Event Y)) → All Proxies t → Ends Proxying (panic_on Y.listen_and_serve t)
      last t p = elim (panic_on-cases Y.listen_and_serve t) [
        | inl (_, e) ↦ rw e (done p)
        | inr (_, _, e) ↦ rw e (done p)
      ]

      ends : Ends Proxying (run_gateway_server Y grpc_port http_port [])
      ends =
          next _ _ (λ p. cc p)
            (next _ _ (λ p. cc p)
              (next _ _ (λ p. cc p)
                (next _ _ (λ p. cc p)
                  (next _ _ (λ p. cc p)
                    (next _ _ (λ p. cc p)
                      (next _ _ (λ p. cc p)
                        (next _ _ (λ p. cc p)
                          (next _ _ (λ p. cc p)
                            (next _ _ (λ p. cc p)
                              (λ t p. emit_rule Y _ _ t (last _ (tt, p))))))))))))
            [] tt

module _ {E : Externals} (Y : System E) (flags : Flags) (store : E.Db) where
  abbrev grpc_events : List (Event Y)
  grpc_events = (run_grpc_server Y flags store []).1

  abbrev gateway_events : List (Event Y)
  gateway_events = (run_gateway_server Y flags.grpc_port flags.http_port []).1

  -- The service is registered, with a server that listens where the handler calls.
  pub record Backed (service : Service) (endpoint : String) (events : List (Event Y)) : Type 0 where
    pub implementation : Implementation E
    pub registered_so : Memᴰ (registered service implementation) events
    pub address : String
    pub listens : Memᴰ (listening address) events
    pub endpoint_eq : endpoint ≡ "localhost" <> address

  -- The service is the one that is not registered.
  abbrev pub Unbacked : Service → List (Event Y) → Type 0
  Unbacked service events =
      (service ≡ middleend_qos_volume)
      × ((i : Implementation E) → ¬ Memᴰ (registered service i) events)

  qos? : (service : Service) → (service ≡ middleend_qos_volume) ⊎ ¬ (service ≡ middleend_qos_volume)
  qos? middleend_qos_volume = inl refl
  qos? _ = inr (λ p. cc p)

  served-Unbacked :
      (service : Service) (tls : List (ServerOption Y.Credentials))
      → service ≡ middleend_qos_volume
      → Unbacked service (served Y flags store tls)
  served-Unbacked service tls q = (
    q,
    λ i m.
        All-at (SparesQos Y) (served Y flags store tls)
          (tt, (tt, (tt, register_services-SparesQos Y _ _ (tt, (tt, (tt, tt)))))) m q,
  )

  served-Backed :
      (service : Service) (endpoint : String) (tls : List (ServerOption Y.Credentials))
      → ¬ (service ≡ middleend_qos_volume)
      → endpoint ≡ endpoint_of flags.grpc_port
      → Backed service endpoint (served Y flags store tls)
  served-Backed service endpoint tls other e =
      let (i, m) =
        register_services-registers Y (fresh Y flags store) (before Y flags store tls) service
          other in
      record {
        implementation = i;
        registered_so = Memᴰ.tail (Memᴰ.tail (Memᴰ.tail m));
        address = port_address flags.grpc_port;
        listens =
            Memᴰ.tail
              (Memᴰ.tail (Memᴰ.tail (register_services-keeps Y _ _ (Memᴰ.tail (Memᴰ.head refl)))));
        endpoint_eq = e ∙ append_assoc "localhost" ":" (format_int flags.grpc_port);
      }

  -- If runGrpcServer has got as far as serving, then for each handler that runGatewayServer has
  -- registered with the same ports, the gRPC server has registered the service of the handler and
  -- listens where the handler calls, or the service is that of QoS volumes, which the gRPC server
  -- has not registered.
  pub proxied-Backed :
      (service : Service) (endpoint : String)
      → Memᴰ serving grpc_events
      → Memᴰ (proxied service endpoint) gateway_events
      → Backed service endpoint grpc_events ⊎ Unbacked service grpc_events
  proxied-Backed service endpoint m p =
      let (tls, _, e) = run_grpc_server-served Y flags store m in
      let (_, at_port) =
        All-at (Proxies Y flags.grpc_port) gateway_events
          (run_gateway_server-Proxying Y flags.grpc_port flags.http_port) p in
      subst (λ events. Backed service endpoint events ⊎ Unbacked service events) (sym e)
        (elim (qos? service) [
          | inl q ↦ inr (served-Unbacked service tls q)
          | inr other ↦ inl (served-Backed service endpoint tls other at_port)
        ])
