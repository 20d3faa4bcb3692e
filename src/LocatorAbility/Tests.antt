-- ===== src/LocatorAbility/Tests.antt =====
-- The witnesses of the properties of the locator ability.
use gitee_oh_base_location.Base.{
  ℕ, [], int_eq, nat_eq, pos, refl, some, string_eq, true, ◌==◌, ◌∷◌, ◌≡◌,
}
use gitee_oh_base_location.Request.{get_proxy_name, config_proxies, get_proxy_name_by_priority}
use gitee_oh_base_location.RequestManager.Lists.{any_name, in_list}
use gitee_oh_base_location.Samples.{env, service, request, place, fast_fix}
use gitee_oh_base_location.ErrCode.{errcode_success}
use gitee_oh_base_location.LocatorAbility.{
  LocatorAbility, query_switch_state, start_locating, disabled,
}
use gitee_oh_base_location.LocatorAbility.Switch.{start_locating_switch_off}

-- The switch is off, and uid 30 is frozen.
abbrev locator : LocatorAbility ℕ
locator = record {
  service = service;
  report = record { last_location = place 1000; offset_random = 2; delivered = [] };
  switch_value = some (pos 0);
  takes_reset = true;
  proxy_map = [];
  proxy_uids = pos 30 ∷ [];
  switch_callbacks = [];
  notices = [];
}

is_off : ((query_switch_state locator).1 == disabled) ≡ true
unfolding query_switch_state
is_off = refl

fast_fix_network : any_name (get_proxy_name (request 80 fast_fix)) "network" ≡ true
unfolding get_proxy_name config_proxies get_proxy_name_by_priority
fast_fix_network = refl

start_locating_switch_off_example :
    ((start_locating env locator true 4 9 (request 80 fast_fix)).1 ≡ errcode_success)
    × ((start_locating env locator true 4 9 (request 80 fast_fix)).0.notices ≡ [])
    × (in_list (start_locating env locator true 4 9 (request 80 fast_fix)).0.service "network" 9
        ≡ true)
start_locating_switch_off_example =
    start_locating_switch_off env locator true 4 9 (request 80 fast_fix) "network" is_off refl
      fast_fix_network refl
