-- ===== src/Command/Grpc/Served.antt =====
-- The events of a `runGrpcServer` of cmd/main.go that got as far as serving.
use opi_nvidia_bridge.Base.{◌≡◌, refl, ap, subst, ◌∙◌, List, [], ◌∷◌, inl, inr, Memᴰ, All-at}
use opi_nvidia_bridge.Exec.{Result}
use opi_nvidia_bridge.Externals.{Externals}
use opi_nvidia_bridge.Command.{
  Flags, port_address, System, ServerOption, Event, started_tracer, shut_tracer, listening,
  made_server, registered_reflection, serving,
}
use opi_nvidia_bridge.Command.Grpc.{run_grpc_server, register_services}
use opi_nvidia_bridge.Command.Grpc.Outcome.{
  OfTls, fresh, all_options, Serves, refuses, serves, run_grpc_server-Serves,
}

module _ {E : Externals} (Y : System E) (flags : Flags) (store : E.Db) where
  abbrev pub Idle : Event Y → Type 0
  Idle e = ¬ (e ≡ serving)

  abbrev pub before : List (ServerOption Y.Credentials) → List (Event Y)
  before tls =
      made_server (all_options Y tls)
      ∷ listening (port_address flags.grpc_port)
      ∷ started_tracer "opi-nvidia-bridge"
      ∷ []

  abbrev pub served : List (ServerOption Y.Credentials) → List (Event Y)
  served tls =
      shut_tracer
      ∷ serving
      ∷ registered_reflection
      ∷ (register_services Y (fresh Y flags store) (before tls)).1

  served_only :
      (r : Result (Unit {0})) (inner : List (Event Y))
      → Serves Y flags store (started_tracer "opi-nvidia-bridge" ∷ []) r inner
      → Memᴰ serving (shut_tracer ∷ inner)
      → (tls : List (ServerOption Y.Credentials)) × OfTls Y flags.tls_files tls
        × (shut_tracer ∷ inner ≡ served tls)
  served_only r inner (refuses _ (inl (_, e))) m = absurd (
      All-at Idle _ ((λ p. cc p), ((λ p. cc p), tt))
        (subst (λ t. Memᴰ serving (shut_tracer ∷ t)) e m) refl)
  served_only r inner (refuses _ (inr (_, e))) m = absurd (
      All-at Idle _ ((λ p. cc p), ((λ p. cc p), ((λ p. cc p), tt)))
        (subst (λ t. Memᴰ serving (shut_tracer ∷ t)) e m) refl)
  served_only r inner (serves _ tls h e) m = (tls, h, ap (λ t. shut_tracer ∷ t) e)

  pub run_grpc_server-served :
      Memᴰ serving (run_grpc_server Y flags store []).1
      → (tls : List (ServerOption Y.Credentials)) × OfTls Y flags.tls_files tls
        × ((run_grpc_server Y flags store []).1 ≡ served tls)
  run_grpc_server-served m =
      let (inner, r, shut, h, _) = run_grpc_server-Serves Y flags store [] in
      let (tls, of_tls, e) = served_only r inner h (subst (Memᴰ serving) shut m) in
      (tls, of_tls, shut ∙ e)
