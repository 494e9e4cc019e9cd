-- ===== src/Namespace/Stats/Flat.antt =====
-- The nested loops of the statistics, as one search through all the block devices in order.
use opi_nvidia_bridge.Base.{String, ◌≡◌, refl, List, [], ◌∷◌, ◌++◌, arith}
use opi_nvidia_bridge.Models.{BdevStats, ControllerStats}
use opi_nvidia_bridge.Namespace.Stats.{find_bdev, find_stats, or_else}

abbrev pub all_bdevs : List ControllerStats → List BdevStats
all_bdevs [] = []
all_bdevs (c ∷ controllers) = c.bdevs ++ all_bdevs controllers

find_bdev-append :
    (name : String) (bdevs rest : List BdevStats)
    → find_bdev name (bdevs ++ rest) ≡ or_else (find_bdev name bdevs) (find_bdev name rest)
unfolding find_bdev
find_bdev-append name [] rest = refl
find_bdev-append name (b ∷ bdevs) rest = ground (arith, find_bdev-append name bdevs rest)

-- The nested loops over the controllers and their block devices find what one search through all
-- block devices in order finds.
pub find_stats-find_bdev :
    (name : String) (controllers : List ControllerStats)
    → find_stats name controllers ≡ find_bdev name (all_bdevs controllers)
unfolding find_stats find_bdev
find_stats-find_bdev name [] = refl
find_stats-find_bdev name (c ∷ controllers) = ground (
  arith,
  find_bdev-append name c.bdevs (all_bdevs controllers),
  find_stats-find_bdev name controllers,
)
