-- ===== src/Examples/Processes.antt =====
-- The process of cmd/main.go on a system where every call is answered well.
use opi_nvidia_bridge.Base.{pos, String, ◌<>◌, ◌≡◌, refl, ◌⊎◌, none, some, [], ◌∷◌, Memᴰ, str_eq}
use opi_nvidia_bridge.Base.Text.{format_int}
use opi_nvidia_bridge.Error.{new}
use opi_nvidia_bridge.Exec.{ok, panic, ◌>>=◌}
use opi_nvidia_bridge.Externals.{value}
use opi_nvidia_bridge.Command.{
  Flags, default_flags, frontend_nvme, System, serving, proxied, listening, started_tracer,
  spawned_gateway, opened_store, panic_on, or_panic, finally,
}
use opi_nvidia_bridge.Command.Grpc.{run_grpc_server, register_services}
use opi_nvidia_bridge.Command.Grpc.Tls.{Made, run_grpc_server-Made}
use opi_nvidia_bridge.Command.Gateway.{run_gateway_server, register_gateway_handler}
use opi_nvidia_bridge.Command.Gateway.Proxied.{Backed, Unbacked, proxied-Backed}
use opi_nvidia_bridge.Command.Process.{earliest, beside, run, main}
use opi_nvidia_bridge.Examples.Bridge.{bridge}

abbrev system : System bridge
system = record {
  parse_flags = λ flags. value (record flags { tls_files = "cert:key:ca" });
  new_store = λ address. value [];
  close_store = none;
  shutdown_tracer = none;
  listen = λ network address. none;
  new_client = λ address. tt;
  entropy = tt;
  TlsConfig = String;
  Credentials = String;
  parse_tls_files = λ files. value files;
  setup_tls_credentials = λ config. value ("credentials of " <> config);
  serve = none;
  register_handler = λ service endpoint. none;
  listen_and_serve = none;
}

abbrev flags : Flags
flags = record default_flags { tls_files = "cert:key:ca" }

main_ok : (main system none []).0 ≡ ok tt
unfolding main register_services run_grpc_server ◌>>=◌ str_eq panic_on
main_ok = refl

flags_serve : Memᴰ serving (run_grpc_server system flags [] []).1
unfolding register_services run_grpc_server ◌>>=◌ str_eq
flags_serve = Memᴰ.tail (Memᴰ.head refl)

run_grpc_server-Made_example : Made system flags [] (run_grpc_server system flags [] []).1
run_grpc_server-Made_example = run_grpc_server-Made system flags [] flags_serve

nvme_proxied :
    Memᴰ
      (proxied frontend_nvme "localhost:50051")
      (run_gateway_server system (pos 50051) (pos 8082) []).1
unfolding run_gateway_server register_gateway_handler ◌>>=◌ format_int
nvme_proxied = Memᴰ.tail (Memᴰ.head refl)

proxied-Backed_example :
    Backed system flags [] frontend_nvme "localhost:50051" (run_grpc_server system flags [] []).1
    ⊎ Unbacked system flags [] frontend_nvme (run_grpc_server system flags [] []).1
proxied-Backed_example =
    proxied-Backed system flags [] frontend_nvme "localhost:50051" flags_serve nvme_proxied

-- The HTTP server of the gateway cannot listen, and the process ends with it after two more events.
abbrev without_http : System bridge
without_http = record system { listen_and_serve = some (new "address in use") }

main_dies : main without_http (some 2) [] ≡ (
  panic,
  listening ":50051"
      ∷ started_tracer "opi-nvidia-bridge"
      ∷ spawned_gateway (pos 50051) (pos 8082)
      ∷ opened_store "127.0.0.1:6379"
      ∷ [],
)
unfolding main run beside earliest run_gateway_server register_gateway_handler register_services
    run_grpc_server ◌>>=◌ str_eq panic_on or_panic finally format_int
main_dies = refl
