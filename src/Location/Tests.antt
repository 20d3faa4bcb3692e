-- ===== src/Location/Tests.antt =====
-- The witnesses of the properties of locations and configurations.
use gitee_oh_base_location.Base.{ℕ, true, ◌↔◌, ◌≡◌}
use gitee_oh_base_location.Parcel.{ParcelOps}
use gitee_oh_base_location.Parcel.Queue.{queue}
use gitee_oh_base_location.Samples.{navigation, fast_fix}
use gitee_oh_base_location.Location.{is_same, scene_unset}
use gitee_oh_base_location.Location.Config.{is_same_iff}

abbrev o : ParcelOps ℕ
o = queue 0

is_same_iff_example : (is_same navigation fast_fix ≡ true) ↔ (
    (navigation.scenario ≡ fast_fix.scenario)
    × ((navigation.scenario ≡ scene_unset) → (navigation.priority ≡ fast_fix.priority)))
is_same_iff_example = is_same_iff navigation fast_fix
