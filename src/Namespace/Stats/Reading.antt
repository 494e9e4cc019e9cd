-- ===== src/Namespace/Stats/Reading.antt =====
-- What `StatsNvmeNamespace` of pkg/frontend/nvme_namespace.go and `StatsVirtioBlk` of
-- pkg/frontend/virtio.go do, on every path.
use opi_nvidia_bridge.Base.{
  to_int32, String, ◌≡◌, refl, ap, ◌∙◌, Bool-cases, none, some, List, [], ◌∷◌, ◌++◌, ◌⊎◌, inl, inr,
  All, str_eq, str_eq_iff,
}
use opi_nvidia_bridge.Api.Messages.{VolumeStats, NvmeNamespace, NvmeNamespaceSpec, nvme_namespace}
use opi_nvidia_bridge.Api.Requests.{StatsRequest}
use opi_nvidia_bridge.Models.{
  BdevStats, ControllerStats, controller_nvme_get_iostat, controller_virtio_blk_get_iostat,
}
use opi_nvidia_bridge.Exec.{Result, ok}
use opi_nvidia_bridge.Exec.Rules.{Ends, done}
use opi_nvidia_bridge.Externals.{Externals, value}
use opi_nvidia_bridge.Externals.Laws.{IsStore}
use opi_nvidia_bridge.Server.{State}
use opi_nvidia_bridge.Server.Outcomes.{
  answered_from, Fails, Untouched, Untouched-refl, Untouched-trans,
}
use opi_nvidia_bridge.Server.Steps.{
  Fails-err, same_rule, pointer_rule, condition_rule, rpc_rule, store_get_rule,
}
use opi_nvidia_bridge.Namespace.Stats.{find_bdev, find_stats, or_no_stats, stats_nvme_namespace}
use opi_nvidia_bridge.Namespace.Stats.Flat.{all_bdevs, find_stats-find_bdev}
use opi_nvidia_bridge.Namespace.Validate.Same as NamespaceSame
use opi_nvidia_bridge.Virtio.Queries.{stats_virtio_blk}
use opi_nvidia_bridge.Virtio.Validate.Same as BlkSame

-- The numbers of a block device that are answered.
abbrev pub counted : BdevStats → VolumeStats
unfolding to_int32
counted r = record { read_ops_count = to_int32 r.read_ios; write_ops_count = to_int32 r.write_ios }

-- No block device of the list has the name.
abbrev pub Lacks : String → List BdevStats → Type 0
Lacks name bdevs = All (λ (b : BdevStats). ¬ (b.bdev_name ≡ name)) bdevs

-- The first block device of the list that has the name.
pub record First (name : String) (bdevs : List BdevStats) : Type 0 where
  pub before : List BdevStats
  pub found : BdevStats
  pub after : List BdevStats
  pub bdevs_eq : bdevs ≡ before ++ found ∷ after
  pub has_name : found.bdev_name ≡ name
  pub lacks : Lacks name before

find_bdev-cases :
    (name : String) (bdevs : List BdevStats)
    → ((first : First name bdevs) × (find_bdev name bdevs ≡ some (counted first.found)))
      ⊎ (Lacks name bdevs × (find_bdev name bdevs ≡ none))
unfolding find_bdev
find_bdev-cases name [] = inr (tt, refl)
find_bdev-cases name (b ∷ bdevs) = elim (Bool-cases (str_eq b.bdev_name name)) [
  | inl same ↦ inl (
    record {
      before = [];
      found = b;
      after = bdevs;
      bdevs_eq = refl;
      has_name = (str_eq_iff b.bdev_name name).0 same;
      lacks = tt;
    },
    rw same refl,
  )
  | inr differ ↦
      let other : ¬ (b.bdev_name ≡ name) = λ e. cc (differ, (str_eq_iff b.bdev_name name).1 e) in
      elim (find_bdev-cases name bdevs) [
        | inl (first, e) ↦ inl (
          record {
            before = b ∷ first.before;
            found = first.found;
            after = first.after;
            bdevs_eq = ap (λ l. b ∷ l) first.bdevs_eq;
            has_name = first.has_name;
            lacks = (other, first.lacks);
          },
          rw differ e,
        )
        | inr (lacks, e) ↦ inr ((other, lacks), rw differ e)
      ]
]

-- The statistics of the first block device with the name, among those of all controllers in order;
-- or a failure, where there is none.
abbrev pub Found : String → List ControllerStats → Result VolumeStats → Type 0
Found name controllers r =
    ((first : First name (all_bdevs controllers)) × (r ≡ ok (counted first.found)))
    ⊎ (Lacks name (all_bdevs controllers) × Fails r)

module _ (E : Externals) where
  -- The end of both handlers.
  answer_rule :
      {Q : Result VolumeStats × State E → Type 0} {s t : State E} (format message name : String)
      (controllers : List ControllerStats)
      → Untouched E s t
      → ((r : Result VolumeStats) → Found name controllers r → Untouched E s t → Q (r, t))
      → Ends Q (or_no_stats E format message (find_stats name controllers) t)
  answer_rule format message name controllers u h =
      elim (find_bdev-cases name (all_bdevs controllers)) [
        | inl (first, e) ↦
            rw (find_stats-find_bdev name controllers, e) (done (h _ (inl (first, refl)) u))
        | inr (lacks, e) ↦
            rw (find_stats-find_bdev name controllers, e) (done (h _ (inr (lacks, Fails-err _)) u))
      ]

module _ (E : Externals) (req : StatsRequest) (s : State E) where
  -- `StatsNvmeNamespace` changes nothing. It fails, or it asks the device once and answers for the
  -- volume of the stored namespace.
  pub data NamespaceReads (r : Result VolumeStats) (t : State E) : Type 0 where
    fails : Fails r → Untouched E s t → NamespaceReads r t
    asks :
        (namespace : NvmeNamespace) (spec : NvmeNamespaceSpec) (controllers : List ControllerStats)
        → E.holds nvme_namespace s.db req.name ≡ some namespace
        → namespace.spec ≡ some spec
        → (E.call controller_nvme_get_iostat s.device).0
          ≡ value (record { controllers = controllers })
        → t.calls ≡ s.calls ++ controller_nvme_get_iostat ∷ []
        → Found spec.volume_name_ref controllers r
        → Untouched E s t
        → NamespaceReads r t

  -- `StatsVirtioBlk` changes nothing, and reads no map. It fails, or it asks the device once and
  -- answers for the block device with the name of the request.
  pub data BlkReads (r : Result VolumeStats) (t : State E) : Type 0 where
    fails : Fails r → Untouched E s t → BlkReads r t
    asks :
        (controllers : List ControllerStats)
        → (E.call controller_virtio_blk_get_iostat s.device).0
          ≡ value (record { controllers = controllers })
        → t.calls ≡ s.calls ++ controller_virtio_blk_get_iostat ∷ []
        → Found req.name controllers r
        → Untouched E s t
        → BlkReads r t

module _ (E : Externals) (L : IsStore E) (req : StatsRequest) (s : State E) where
  stats_nvme_namespace-Reads :
      let (r, t) = stats_nvme_namespace E req s in NamespaceReads E req s r t
  unfolding stats_nvme_namespace
  stats_nvme_namespace-Reads = ends.holds
    where
      ends : Ends (λ (r, t). NamespaceReads E req s r t) (stats_nvme_namespace E req s)
      ends =
          same_rule E _ _ _ (NamespaceSame.validate_stats-same E s req)
            (λ _ _.
              store_get_rule E L nvme_namespace req.name _ _
                (λ found t _ hf o.
                  condition_rule E _ _ _ _
                    (λ _.
                      pointer_rule E _ _ _
                        (λ namespace hn.
                          rpc_rule E controller_nvme_get_iostat _ _
                            (λ result t' he _ u hc.
                              pointer_rule E _ _ _
                                (λ spec hs.
                                  answer_rule E _ _ _ result.controllers
                                    (Untouched-trans E o.untouched u)
                                    (λ _ f u'.
                                      asks namespace spec result.controllers (hf ∙ hn) hs
                                        (answered_from E controller_nvme_get_iostat o he)
                                        (hc
                                          ∙ ap (λ c. c ++ controller_nvme_get_iostat ∷ [])
                                              o.same_calls)
                                        f u'))
                                (λ r f. done (fails f (Untouched-trans E o.untouched u))))
                            (λ r t' f u. done (fails f (Untouched-trans E o.untouched u))))
                        (λ r f. done (fails f o.untouched)))
                    (λ r f. done (fails f o.untouched)))
                (λ r t f o. done (fails f o.untouched)))
            (λ r f. done (fails f (Untouched-refl E s)))

  stats_virtio_blk-Reads : let (r, t) = stats_virtio_blk E req s in BlkReads E req s r t
  unfolding stats_virtio_blk
  stats_virtio_blk-Reads = ends.holds
    where
      ends : Ends (λ (r, t). BlkReads E req s r t) (stats_virtio_blk E req s)
      ends =
          same_rule E _ _ _ (BlkSame.validate_stats-same E s req)
            (λ _ _.
              rpc_rule E controller_virtio_blk_get_iostat _ _
                (λ result t he _ u hc.
                  answer_rule E _ _ _ result.controllers u
                    (λ _ f u'. BlkReads.asks result.controllers he hc f u'))
                (λ r t f u. done (BlkReads.fails f u)))
            (λ r f. done (BlkReads.fails f (Untouched-refl E s)))

  -- If the store behaves as a store, StatsNvmeNamespace and StatsVirtioBlk leave the maps and the
  -- store as they were, and each fails; or has asked the device once, StatsNvmeNamespace after
  -- reading the namespace of the name, with a specification, from the store; then it answers, as
  -- int32, the counts of the first block device with the name, among those of all controllers in
  -- order, or fails since none has the name. The name is that of the namespace's volume for
  -- StatsNvmeNamespace, and that of the request for StatsVirtioBlk.
  pub stats-Reads :
      (let (r, t) = stats_nvme_namespace E req s in NamespaceReads E req s r t)
      × (let (r, t) = stats_virtio_blk E req s in BlkReads E req s r t)
  stats-Reads = (stats_nvme_namespace-Reads, stats_virtio_blk-Reads)
