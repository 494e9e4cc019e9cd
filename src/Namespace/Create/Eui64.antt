-- ===== src/Namespace/Create/Eui64.antt =====
-- The EUI-64 of a namespace, which goes to the device as a decimal text.
use opi_nvidia_bridge.Base.{
  ℤ, IsInt64, ◌≡◌, sym, ◌∙◌, ap, subst, Option, none, some, [], ◌∷◌, ◌++◌, inl, inr,
}
use opi_nvidia_bridge.Base.Text.Decimal.{read_int, read_int-format_int}
use opi_nvidia_bridge.Api.Messages.{NvmeNamespace, NvmeNamespaceSpec, NvmeSubsystem}
use opi_nvidia_bridge.Models.{Rpc, controller_nvme_namespace_attach}
use opi_nvidia_bridge.Exec.{ok}
use opi_nvidia_bridge.Exec.Rules.{some-inj}
use opi_nvidia_bridge.Externals.{Externals}
use opi_nvidia_bridge.Externals.Laws.{IsStore, ClonesFaithfully}
use opi_nvidia_bridge.Server.{State}
use opi_nvidia_bridge.Namespace.Create.{attach}
use opi_nvidia_bridge.Namespace.Create.Outcome.{attach_call}
use opi_nvidia_bridge.Namespace.Create.Paths.{attach-Attaches}

-- The number that the text in an attach call says.
abbrev pub read_eui64 : Rpc → Option ℤ
read_eui64 (controller_nvme_namespace_attach params) = some (read_int params.eui64)
read_eui64 _ = none

module _ (E : Externals) (L : IsStore E) (C : ClonesFaithfully E) where
  -- If the store behaves as a store and clones equal their originals, then when CreateNvmeNamespace
  -- has attached a namespace of which the EUI-64 is a 64-bit integer, the decimal text in the one
  -- call made to the device reads back as that EUI-64.
  pub attach-eui64 :
      (namespace : NvmeNamespace) (subsystem : NvmeSubsystem) (s : State E)
      (spec : NvmeNamespaceSpec) (m : NvmeNamespace)
      → namespace.spec ≡ some spec
      → IsInt64 spec.eui64
      → (attach E namespace subsystem s).0 ≡ ok m
      → (c : Rpc) × ((attach E namespace subsystem s).1.calls ≡ s.calls ++ c ∷ [])
        × (read_eui64 c ≡ some spec.eui64)
  attach-eui64 namespace subsystem s spec m hs h p =
      elim (attach-Attaches E L C namespace subsystem s).holds [
        | inl (f, _) ↦ absurd (f m p)
        | inr a ↦
            let same : a.spec ≡ spec = some-inj (sym a.spec_eq ∙ hs) in
            (
              attach_call a.spec a.subsystem_spec,
              a.calls,
              ap some (
                  read_int-format_int a.spec.eui64
                    (subst (λ (x : NvmeNamespaceSpec). IsInt64 x.eui64) (sym same) h)
                  ∙ ap (λ (x : NvmeNamespaceSpec). x.eui64) same),
            )
      ]
