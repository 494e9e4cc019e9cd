-- ===== src/Command/Grpc/Outcome.antt =====
-- How `runGrpcServer` of cmd/main.go ends, and with which events.
use opi_nvidia_bridge.Base.{
  String, ◌≡◌, refl, true, false, List, [], ◌∷◌, ◌++◌, ◌⊎◌, inl, inr, none, some, str_eq,
  str_eq_iff, Bool-cases, arith,
}
use opi_nvidia_bridge.Error.{Error}
use opi_nvidia_bridge.Exec.{Result, ok, panic, Exec, continue, ◌>>=◌, ◌>>◌}
use opi_nvidia_bridge.Exec.Rules.{Ends, done}
use opi_nvidia_bridge.Externals.{Externals, value, failure}
use opi_nvidia_bridge.Server.{State, new_server, new_server_maps}
use opi_nvidia_bridge.Command.{
  Flags, port_address, System, ServerOption, credentials, stats_handler, unary_interceptor, Event,
  started_tracer, shut_tracer, listening, made_server, registered_reflection, serving, panic_on,
}
use opi_nvidia_bridge.Command.Rules.{
  panic_on_rule, or_panic_rule, lift_ok_rule, emit_rule, panic_on-cases, finally-panic_on,
}
use opi_nvidia_bridge.Command.Grpc.{tls_options, register_services, serve_grpc, run_grpc_server}

module _ {E : Externals} (Y : System E) where
  -- The options are none if no files are given, and else the credentials that the files give.
  pub data OfTls (tls_files : String) (options : List (ServerOption Y.Credentials)) : Type 0 where
    insecure : tls_files ≡ "" → options ≡ [] → OfTls tls_files options
    secured :
        (tls_files ≡ "" → ⊥)
        → (config : Y.TlsConfig) (option : Y.Credentials)
        → Y.parse_tls_files tls_files ≡ value config
        → Y.setup_tls_credentials config ≡ value option
        → options ≡ credentials option ∷ []
        → OfTls tls_files options

  -- The state of the frontend as `fe.NewServer` makes it.
  abbrev pub fresh : Flags → E.Db → State E
  fresh flags store = record {
    server = new_server_maps;
    db = store;
    device = Y.new_client flags.spdk_address;
    entropy = Y.entropy;
    calls = [];
  }

  abbrev pub all_options : List (ServerOption Y.Credentials) → List (ServerOption Y.Credentials)
  all_options tls = tls ++ stats_handler ∷ unary_interceptor ∷ []

  abbrev pub Unheard : Flags → Type 0
  Unheard flags = (e : Error) × (Y.listen "tcp" (port_address flags.grpc_port) ≡ some e)

  -- Files are given, and they cannot be parsed or not be set up.
  abbrev pub BadTls : String → Type 0
  BadTls tls_files =
      (¬ (tls_files ≡ ""))
      × (((e : Error) × (Y.parse_tls_files tls_files ≡ failure e))
          ⊎ ((config : Y.TlsConfig) × (e : Error) × (Y.parse_tls_files tls_files ≡ value config)
              × (Y.setup_tls_credentials config ≡ failure e)))

  -- The two ends of what follows the deferred shutdown: a panic before the server is made, since it
  -- cannot listen or the files are bad, or the server has served, with every service registered.
  pub data Serves (flags : Flags) (store : E.Db) (events : List (Event Y)) (r : Result (Unit {0}))
      (t : List (Event Y)) : Type 0 where
    refuses :
        r ≡ panic
        → (Unheard flags × (t ≡ events))
          ⊎ (BadTls flags.tls_files × (t ≡ listening (port_address flags.grpc_port) ∷ events))
        → Serves flags store events r t
    serves :
        ((r ≡ panic) × (e : Error) × (Y.serve ≡ some e)) ⊎ ((r ≡ ok tt) × (Y.serve ≡ none))
        → (tls : List (ServerOption Y.Credentials)) → OfTls flags.tls_files tls
        → t
          ≡ serving
            ∷ registered_reflection
            ∷ (register_services Y (fresh flags store) (
                made_server (all_options tls)
                ∷ listening (port_address flags.grpc_port)
                ∷ events)).1
        → Serves flags store events r t

module _ {E : Externals} (Y : System E) (tls_files : String) (events : List (Event Y)) where
  -- What `tls_options` ends with.
  data Options : Result (List (ServerOption Y.Credentials)) × List (Event Y) → Type 0 where
    refused : BadTls Y tls_files → Options (panic, events)
    gives :
        (tls : List (ServerOption Y.Credentials)) → OfTls Y tls_files tls → Options (ok tls, events)

  tls_options-Options : Ends Options (tls_options Y tls_files events)
  unfolding tls_options
  tls_options-Options = split (Bool-cases (str_eq tls_files ""))
    where
      given : str_eq tls_files "" ≡ false → tls_files ≡ "" → ⊥
      given differ same = ground (arith, differ, (str_eq_iff tls_files "").1 same)

      split :
          (str_eq tls_files "" ≡ true) ⊎ (str_eq tls_files "" ≡ false)
          → Ends Options (tls_options Y tls_files events)
      split (inl e) =
          rw (e, tls_options) (done (gives [] (insecure ((str_eq_iff tls_files "").0 e) refl)))
      split (inr e) =
          rw (e, tls_options)
            (or_panic_rule (Y.parse_tls_files tls_files) _ events
              (λ config parsed.
                or_panic_rule (Y.setup_tls_credentials config) _ events
                  (λ option set. done (
                    gives (credentials option ∷ [])
                      (secured (given e) config option parsed set refl)))
                  (λ x hx. done (refused (given e, inr (config, x, parsed, hx)))))
              (λ x hx. done (refused (given e, inl (x, hx)))))

  tls_options_rule {μ} :
      {B : Type 0} {Q : Result B × List (Event Y) → Type μ}
      (f : List (ServerOption Y.Credentials) → Exec (List (Event Y)) B)
      → ((tls : List (ServerOption Y.Credentials)) → OfTls Y tls_files tls → Ends Q (f tls events))
      → (BadTls Y tls_files → Ends Q (panic, events))
      → Ends Q ((tls_options Y tls_files >>= f) events)
  unfolding ◌>>=◌
  tls_options_rule {Q} f h p = split tls_options-Options.holds
    where
      split :
          {o : Result (List (ServerOption Y.Credentials)) × List (Event Y)}
          → Options o
          → Ends Q (continue o.0 f o.1)
      split (refused bad) = p bad
      split (gives tls s) = h tls s

module _ {E : Externals} (Y : System E) {B : Type 0} {Q : Result B × List (Event Y) → Type 0} where
  -- The registrations do not fail.
  register_rule :
      (frontend : State E) (k : Exec (List (Event Y)) B) (s : List (Event Y))
      → Ends Q (k (register_services Y frontend s).1)
      → Ends Q ((register_services Y frontend >> k) s)
  unfolding register_services ◌>>=◌
  register_rule frontend k s h = h

module _ {E : Externals} (Y : System E) (flags : Flags) (store : E.Db)
    (events : List (Event Y)) where
  abbrev served : List (ServerOption Y.Credentials) → List (Event Y)
  served tls =
      serving
      ∷ registered_reflection
      ∷ (register_services Y (fresh Y flags store)
          (made_server (all_options Y tls) ∷ listening (port_address flags.grpc_port) ∷ events)).1

  last-Serves :
      (tls : List (ServerOption Y.Credentials))
      → OfTls Y flags.tls_files tls
      → Ends (λ (r, t). Serves Y flags store events r t) (panic_on Y.serve (served tls))
  last-Serves tls h = elim (panic_on-cases Y.serve (served tls)) [
    | inl (e, same) ↦ rw same (done (serves (inr (refl, e)) tls h refl))
    | inr (x, hx, same) ↦ rw same (done (serves (inl (refl, x, hx)) tls h refl))
  ]

  pub serve_grpc-Serves :
      let (r, t) = serve_grpc Y flags store events in Serves Y flags store events r t
  unfolding serve_grpc new_server
  serve_grpc-Serves = ends.holds
    where
      ends : Ends (λ (r, t). Serves Y flags store events r t) (serve_grpc Y flags store events)
      ends =
          panic_on_rule (Y.listen "tcp" (port_address flags.grpc_port)) _ _
            (λ _. emit_rule Y _ _ _ (
              lift_ok_rule _ _ _ (fresh Y flags store) refl (
                tls_options_rule Y flags.tls_files _ _
                  (λ tls h. emit_rule Y _ _ _ (
                    register_rule Y (fresh Y flags store) _ _
                      (emit_rule Y _ _ _ (emit_rule Y _ _ _ (last-Serves tls h)))))
                  (λ bad. done (refuses refl (inr (bad, refl)))))))
            (λ x hx. done (refuses refl (inl ((x, hx), refl))))

module _ {E : Externals} (Y : System E) (flags : Flags) (store : E.Db)
    (events : List (Event Y)) where
  -- The tracer is shut however the serving ends.
  pub run_grpc_server-Serves :
      let (r, t) = run_grpc_server Y flags store events in
      (inner : List (Event Y)) × (r' : Result (Unit {0})) × (t ≡ shut_tracer ∷ inner)
      × Serves Y flags store (started_tracer "opi-nvidia-bridge" ∷ events) r' inner
      × (((r ≡ panic) × (e : Error) × (Y.shutdown_tracer ≡ some e))
          ⊎ ((r ≡ r') × (Y.shutdown_tracer ≡ none)))
  unfolding run_grpc_server ◌>>=◌
  run_grpc_server-Serves =
      let (shut, r) =
        finally-panic_on (serve_grpc Y flags store) (λ u. shut_tracer ∷ u) Y.shutdown_tracer
          (started_tracer "opi-nvidia-bridge" ∷ events) in
      (_, _, shut, serve_grpc-Serves Y flags store (started_tracer "opi-nvidia-bridge" ∷ events), r)
