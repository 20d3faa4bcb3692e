-- ===== src/Fusion/Tests.antt =====
-- The witnesses of the properties of the fusion controller.
use gitee_oh_base_location.Base.{[], any_by, refl, some, true, ◌∷◌, ◌≡◌}
use gitee_oh_base_location.Common.{gnss_ability}
use gitee_oh_base_location.Location.{scene_navigation}
use gitee_oh_base_location.Fusion.{Fusion, process}
use gitee_oh_base_location.Fusion.QuickFix.{active_all, wants_quick_fix, process-active_all_nil}

abbrev processed : Fusion
processed = record { fused_flag = 1; need_reset = true }

abbrev stale : Fusion
stale = (process (active_all processed (scene_navigation ∷ [])) gnss_ability).0

process-active_all_nil_example :
    (process (active_all stale []) gnss_ability).1
    ≡ some (any_by wants_quick_fix (scene_navigation ∷ []))
process-active_all_nil_example =
    process-active_all_nil processed stale scene_navigation [] refl refl
