-- ===== src/Fusion.antt =====
-- services/location_locator/locator/source/fusion_controller.cpp, with FEATURE_NETWORK_SUPPORT: when
-- the network ability is asked for a quick first fix. `RequestQuickFix` sends a message to another
-- process; here the argument of each call is returned.
pub mod QuickFix
mod Tests
use Prim.Native.Nat.{bit_and, bit_or}
use gitee_oh_base_location.Base.{
  ℕ, Bool, Option, String, false, if◌then◌else◌, int_eq, nat_eq, none, not, some, string_eq, true,
  ℤ, ◌==◌, ◌||◌,
}
use gitee_oh_base_location.Common.{gnss_ability}
use gitee_oh_base_location.Location.{
  scene_navigation, scene_trajectory_tracking, priority_fast_first_fix,
}

pub record Fusion : Type 0 where
  pub fused_flag : ℕ
  pub need_reset : Bool

abbrev pub report_fused_location_flag : ℕ
report_fused_location_flag = 1

abbrev pub quick_fix_flag : ℕ
quick_fix_flag = 2

unfoldable pub new_fusion : Fusion
new_fusion = record { fused_flag = 0; need_reset = true }

-- The flag that the switch starts from, and the flag that it leaves.
unfoldable pub switch_flag : ℤ → ℕ → ℕ
switch_flag type flag =
    if type == scene_navigation || type == scene_trajectory_tracking
    then bit_or flag quick_fix_flag
    else if type == priority_fast_first_fix
    then bit_or flag report_fused_location_flag
    else flag

unfoldable pub active_fusion_strategies : Fusion → ℤ → Fusion
active_fusion_strategies f type = record {
  fused_flag = switch_flag type (if f.need_reset then 0 else f.fused_flag);
  need_reset = false;
}

-- The argument of `RequestQuickFix`, where it is called.
unfoldable pub process : Fusion → String → Fusion × Option Bool
process f ability_name = (
  record f { need_reset = true },
  if gnss_ability == ability_name
      then some (not (bit_and f.fused_flag quick_fix_flag == 0))
      else none,
)

unfoldable pub fuse_result : String → Option Bool
fuse_result ability_name = if gnss_ability == ability_name then some false else none
