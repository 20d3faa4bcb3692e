-- ===== src/Location/Config.antt =====
-- When two configurations ask for the same.
use gitee_oh_base_location.Base.{arith, int_eq, nat_eq, string_eq, true, ◌↔◌, ◌≡◌, int_beq_iff}
use gitee_oh_base_location.Location.{RequestConfig, is_same, set_config, scene_unset}

module _ {D : Type 0} where
  -- Two configurations are the same exactly if the scenarios are equal and, where no scenario is set,
  -- the priorities are.
  pub is_same_iff :
      (c d : RequestConfig D)
      → (is_same c d ≡ true)
        ↔ ((c.scenario ≡ d.scenario) × ((c.scenario ≡ scene_unset) → (c.priority ≡ d.priority)))
  unfolding is_same
  is_same_iff c d = ground (
    arith,
    int_beq_iff c.scenario d.scenario,
    int_beq_iff c.scenario scene_unset,
    int_beq_iff c.priority d.priority,
  )

  -- A configuration that is set from another is the same as it.
  pub is_same-set_config : (c d : RequestConfig D) → is_same (set_config c d) d ≡ true
  unfolding is_same set_config
  is_same-set_config c d =
      ground (arith, int_beq_iff d.scenario d.scenario, int_beq_iff d.priority d.priority)
