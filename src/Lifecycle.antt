-- ===== src/Lifecycle.antt =====
-- OnStart, OnStop and Init, which gnss_ability.cpp, network_ability.cpp, passive_ability.cpp and
-- geo_convert_service.cpp write alike, and SubAbility::Enable of subability_common.cpp. Whether
-- `Publish` succeeds, and the abilities that the system ability manager knows, are parameters.
use gitee_oh_base_location.Base.{
  Bool, List, Option, String, [], false, if◌then◌else◌, none, not, some, true, ◌∷◌,
}
use gitee_oh_base_location.Common.{SystemAbility, ability_convert_to_id}

pub data ServiceRunningState : Type 0 where
  state_not_start state_running : ServiceRunningState

pub record Lifecycle : Type 0 where
  pub register_to_ability : Bool
  pub state : ServiceRunningState

unfoldable pub new_lifecycle : Lifecycle
new_lifecycle = record { register_to_ability = false; state = state_not_start }

unfoldable pub on_stop : Lifecycle → Lifecycle
on_stop l = record { register_to_ability = false; state = state_not_start }

unfoldable pub init : Bool → Lifecycle → Lifecycle × Bool
init published l =
    if not l.register_to_ability
    then (if not published then (l, false) else (record l { register_to_ability = true }, true))
    else (l, true)

unfoldable pub on_start : Bool → Lifecycle → Lifecycle
on_start published l = elim l.state [
  | state_running ↦ l
  | state_not_start ↦
      let (l', ok) = init published l in
      if not ok then on_stop l' else record l' { state = state_running }
]

-- The calls that `Enable` makes to the system ability manager. `none` is the id -1.
pub data Registration : Type 0 where
  add_system_ability remove_system_ability : Option SystemAbility → Registration

-- `manager` is `none` where there is no manager, else which ids `CheckSystemAbility` finds.
unfoldable pub enable : Option (Option SystemAbility → Bool) → String → Bool → List Registration
enable none name state = []
enable (some check) name state =
    let sa_id = ability_convert_to_id name in
    if state
    then (if not (check sa_id) then add_system_ability sa_id ∷ [] else [])
    else if check sa_id
    then remove_system_ability sa_id ∷ []
    else []
