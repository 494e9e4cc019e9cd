-- ===== src/Namespace/Stats.antt =====
-- `StatsNvmeNamespace` of pkg/frontend/nvme_namespace.go, and the search through the statistics
-- that `StatsVirtioBlk` of pkg/frontend/virtio.go makes too.
pub mod Flat
pub mod Reading
use opi_nvidia_bridge.Base.{
  to_int32, String, Option, none, some, List, [], ◌∷◌, str_eq, is_some, if◌then◌else◌,
}
use opi_nvidia_bridge.Api.Messages.{VolumeStats, nvme_namespace}
use opi_nvidia_bridge.Api.Requests.{StatsRequest}
use opi_nvidia_bridge.Models.{BdevStats, ControllerStats, controller_nvme_get_iostat}
use opi_nvidia_bridge.Error.{invalid, unable_to_find_key}
use opi_nvidia_bridge.Exec.{pure, fail, deref, require, ◌>>=◌, ◌>>◌}
use opi_nvidia_bridge.Externals.{Externals}
use opi_nvidia_bridge.Server.{Method, store_get, rpc}
use opi_nvidia_bridge.Namespace.Validate.{validate_stats}

-- The inner loop, `for _, r := range c.Bdevs`.
unfoldable pub find_bdev : String → List BdevStats → Option VolumeStats
unfolding to_int32
find_bdev name [] = none
find_bdev name (r ∷ bdevs) =
    let rest = find_bdev name bdevs in
    if str_eq r.bdev_name name
    then some
        (record { read_ops_count = to_int32 r.read_ios; write_ops_count = to_int32 r.write_ios })
    else rest

abbrev pub or_else : Option VolumeStats → Option VolumeStats → Option VolumeStats
or_else (some stats) rest = some stats
or_else none rest = rest

-- The outer loop, `for _, c := range result.Controllers`.
unfoldable pub find_stats : String → List ControllerStats → Option VolumeStats
unfolding find_bdev
find_stats name [] = none
find_stats name (c ∷ controllers) = or_else (find_bdev name c.bdevs) (find_stats name controllers)

module _ (E : Externals) where
  abbrev pub or_no_stats : String → String → Option VolumeStats → Method E VolumeStats
  or_no_stats format name (some stats) = pure stats
  or_no_stats format name none = fail (invalid format name)

  unfoldable pub stats_nvme_namespace : StatsRequest → Method E VolumeStats
  unfolding validate_stats find_stats
  stats_nvme_namespace req = do
    validate_stats E req
    found ← store_get E nvme_namespace req.name
    require (is_some found) (unable_to_find_key req.name)
    namespace ← deref found
    result ← rpc E controller_nvme_get_iostat
    spec ← deref namespace.spec
    or_no_stats "Could not find BdevName: %s" spec.volume_name_ref
        (find_stats spec.volume_name_ref result.controllers)
