-- ===== src/Command/Grpc/Tls.antt =====
-- That `runGrpcServer` of cmd/main.go does not serve without the credentials it was told to use.
use opi_nvidia_bridge.Base.{refl, sym, subst, List, [], ◌∷◌, ◌++◌, Memᴰ}
use opi_nvidia_bridge.Externals.{Externals}
use opi_nvidia_bridge.Command.{
  Flags, System, ServerOption, stats_handler, unary_interceptor, Event, made_server, serving,
}
use opi_nvidia_bridge.Command.Grpc.{run_grpc_server}
use opi_nvidia_bridge.Command.Grpc.Registered.{register_services-keeps}
use opi_nvidia_bridge.Command.Grpc.Outcome.{OfTls}
use opi_nvidia_bridge.Command.Grpc.Served.{run_grpc_server-served}

module _ {E : Externals} (Y : System E) (flags : Flags) (store : E.Db) where
  abbrev made_of : List (ServerOption Y.Credentials) → Event Y
  made_of tls = made_server (tls ++ stats_handler ∷ unary_interceptor ∷ [])

  -- A server was made with the options that the flag leads to, before the two that are always set.
  pub record Made (events : List (Event Y)) : Type 0 where
    pub tls : List (ServerOption Y.Credentials)
    pub of_tls : OfTls Y flags.tls_files tls
    pub made : Memᴰ (made_of tls) events

  -- If runGrpcServer has got as far as serving, it has made a server with the options for
  -- statistics and logging and, before them, no other where no TLS files were given, and else the
  -- credentials that parsing the files and setting them up have given without an error.
  pub run_grpc_server-Made :
      Memᴰ serving (run_grpc_server Y flags store []).1 → Made (run_grpc_server Y flags store []).1
  run_grpc_server-Made m =
      let (tls, of_tls, e) = run_grpc_server-served Y flags store m in
      record {
        tls = tls;
        of_tls = of_tls;
        made =
            subst (Memᴰ (made_of tls)) (sym e)
              (Memᴰ.tail (Memᴰ.tail (Memᴰ.tail (register_services-keeps Y _ _ (Memᴰ.head refl)))));
      }
