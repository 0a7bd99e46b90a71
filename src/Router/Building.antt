-- ===== src/Router/Building.antt =====
-- crates/router/src/router.rs: `RouterBuilder::build`.
use angzarr_router.Prelude.{◌≡◌, ◌↔◌, arith, List, [], ◌∷◌, ok, err}
use angzarr_router.Wire.Messages.{Wire}
use angzarr_router.Errors.Reasons.{Reasons}
use angzarr_router.Router.Hosting.{
  Component, component_name, RouterBuilder, Router, build, refuse_another_component,
}

module _ ⦃w : Wire⦄ ⦃r : Reasons⦄ where
  -- A builder builds a router exactly when its one component is the router's, with the builder's
  -- descriptor.
  pub build_iff :
      (b : RouterBuilder) (router : Router)
      → (build b ≡ ok router)
        ↔ ((b.components ≡ router.component ∷ []) × (b.descriptor ≡ router.descriptor))
  unfolding build
  build_iff b router = (λ h. (ground arith, ground arith), λ h. ground arith)

  -- Hosting two components or more is refused with the names of the first two, as a built router
  -- of the first refuses the second.
  pub build_of_two :
      (b : RouterBuilder) (c d : Component) (rest : List Component)
      → b.components ≡ c ∷ d ∷ rest
      → build b
        ≡ err (
            refuse_another_component
              (record { component = c; descriptor = b.descriptor })
              (component_name d))
  unfolding build refuse_another_component
  build_of_two b c d rest h = rw h
