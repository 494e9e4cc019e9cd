-- ===== src/Examples/Blks.antt =====
-- The handlers of virtio-blk controllers on the example bridge.
use opi_nvidia_bridge.Base.{
  ℤ, pos, String, ◌≡◌, refl, Bool, false, none, some, [], ◌∷◌, lookup, insert,
}
use opi_nvidia_bridge.Api.Messages.{VirtioBlk, virtio_blk}
use opi_nvidia_bridge.Api.Requests.{CreateRequest, DeleteRequest, GetRequest, ListRequest}
use opi_nvidia_bridge.Exec.{ok}
use opi_nvidia_bridge.Server.{State}
use opi_nvidia_bridge.Virtio.Create.{create_virtio_blk}
use opi_nvidia_bridge.Virtio.Create.Paths.{Creates, create_virtio_blk-Creates}
use opi_nvidia_bridge.Virtio.Delete.{delete_virtio_blk}
use opi_nvidia_bridge.Virtio.Delete.Paths.{Deletes, delete_virtio_blk-Deletes}
use opi_nvidia_bridge.Virtio.Queries.{list_virtio_blks, get_virtio_blk}
use opi_nvidia_bridge.Virtio.Queries.Finding.{Gets, get_virtio_blk-Gets}
use opi_nvidia_bridge.Virtio.Queries.Listing.{Lists, list_virtio_blks-Lists}
use opi_nvidia_bridge.Base.{str_eq, true}
use opi_nvidia_bridge.Virtio.Create.Success.{create_virtio_blk-succeeds}
use opi_nvidia_bridge.Virtio.Delete.Paths.{delete_call}
use opi_nvidia_bridge.Virtio.Keyed.{IsKeyed}
use opi_nvidia_bridge.Base.{str_eq_iff}
use opi_nvidia_bridge.Base.{arith}
use opi_nvidia_bridge.Virtio.Delete.Success.{delete_virtio_blk-succeeds}
use opi_nvidia_bridge.Examples.Bridge.{bridge, bridge-ClonesFaithfully}

abbrev first : State bridge
first = record {
  server = record { virtio_ctrls = []; nqns = []; pagination = [] };
  db = [];
  device = tt;
  entropy = tt;
  calls = [];
}

abbrev creation : CreateRequest virtio_blk
creation = record {
  resource = some (record {
    name = "";
    pcie_id = some (record {
      physical_function = some (pos 42);
      virtual_function = some (pos 0);
      port_id = some (pos 0);
    });
    volume_name_ref = "Malloc42";
    max_io_qps = pos 1;
  });
  resource_id = "virtio-blk-42";
}

abbrev second : State bridge
second = (create_virtio_blk bridge creation first).1

abbrev deletion : DeleteRequest
deletion = record { name = "volumes/virtio-blk-42"; allow_missing = false }

create_virtio_blk-Creates_example :
    Creates bridge creation first (create_virtio_blk bridge creation first).0 second
create_virtio_blk-Creates_example =
    create_virtio_blk-Creates bridge bridge-ClonesFaithfully creation first

-- The example device answers a delete with `false`.
delete_virtio_blk_ok : (delete_virtio_blk bridge deletion second).0 ≡ ok tt
unfolding delete_virtio_blk create_virtio_blk opi_nvidia_bridge.Exec.◌>>=◌
    opi_nvidia_bridge.Server.get_server opi_nvidia_bridge.Base.str_eq
    opi_nvidia_bridge.Server.new_system_generated opi_nvidia_bridge.Server.rpc
    opi_nvidia_bridge.Server.set_server
delete_virtio_blk_ok = refl

delete_virtio_blk-Deletes_example :
    let (r, t) = delete_virtio_blk bridge deletion second in Deletes bridge deletion second r t
delete_virtio_blk-Deletes_example = delete_virtio_blk-Deletes bridge deletion second

list_virtio_blks-Lists_example :
    let req : ListRequest = record { page_size = pos 0; page_token = "" } in
    let (r, t) = list_virtio_blks bridge req second in Lists bridge req second r t
list_virtio_blks-Lists_example =
    list_virtio_blks-Lists bridge (record { page_size = pos 0; page_token = "" }) second

abbrev blk : VirtioBlk
blk = record {
  name = "volumes/virtio-blk-42";
  pcie_id = some (record {
    physical_function = some (pos 42);
    virtual_function = some (pos 0);
    port_id = some (pos 0);
  });
  volume_name_ref = "Malloc42";
  max_io_qps = pos 1;
}

create_virtio_blk-succeeds_example : (create_virtio_blk bridge creation first).0 ≡ ok blk
unfolding lookup str_eq
create_virtio_blk-succeeds_example =
    create_virtio_blk-succeeds bridge bridge-ClonesFaithfully creation (record blk { name = "" })
      (record {
        physical_function = some (pos 42);
        virtual_function = some (pos 0);
        port_id = some (pos 0);
      })
      (pos 42) "blk" first refl refl refl refl refl refl refl refl refl

abbrev with_blk : State bridge
with_blk = record first {
  server = record {
    virtio_ctrls = ("volumes/virtio-blk-42", blk) ∷ [];
    nqns = [];
    pagination = [];
  };
}

with_blk-IsKeyed : IsKeyed with_blk.server.virtio_ctrls
unfolding IsKeyed lookup
with_blk-IsKeyed key found e = ground (arith, str_eq_iff "volumes/virtio-blk-42" key)

delete_virtio_blk-succeeds_example :
    let (r, t) = delete_virtio_blk bridge deletion with_blk in
    (r ≡ ok tt)
    × (t.calls ≡ delete_call deletion.name ∷ [])
    × (lookup deletion.name t.server.virtio_ctrls ≡ none)
unfolding lookup str_eq
delete_virtio_blk-succeeds_example =
    delete_virtio_blk-succeeds bridge deletion blk false with_blk refl refl refl refl
      with_blk-IsKeyed

get_virtio_blk-Gets_example :
    let req : GetRequest = record { name = "volumes/virtio-blk-42" } in
    let (r, t) = get_virtio_blk bridge req with_blk in Gets bridge req with_blk r t
get_virtio_blk-Gets_example =
    get_virtio_blk-Gets bridge (record { name = "volumes/virtio-blk-42" }) with_blk
