-- ===== src/LocatorAbility.antt =====
-- services/location_locator/locator/source/locator_ability.cpp: starting and stopping, the switch and
-- its callbacks, and the uids that are frozen by proxy. The value of the switch stands in a database:
-- `switch_value` is what reading it gives, `none` where that fails, and `takes_reset` whether the
-- value that is written then gets there. Callbacks are named by numbers, and none is null.
mod Tests
pub mod Switch
pub mod Operations
use gitee_oh_base_location.Base.{
  ℕ, Bool, List, Option, String, [], any_by, erase, false, filter_by, if◌then◌else◌, int_eq, length,
  lookup, ltb, nat_eq, negsuc, none, not, pos, some, string_eq, ℤ, ◌&&◌, ◌++◌, ◌+◌, ◌==◌, ◌∷◌,
  ltb_ℤ,
}
use gitee_oh_base_location.ErrCode.{
  LocationErrCode, errcode_success, errcode_switch_off, errcode_service_unavailable,
}
use gitee_oh_base_location.Registry.{put_callback, drop_callback}
use gitee_oh_base_location.Common.{gnss_ability, network_ability, passive_ability}
use gitee_oh_base_location.Env.{Env}
use gitee_oh_base_location.Location.{Location, RequestConfig, new_request_config, set_config}
use gitee_oh_base_location.Request.{Request}
use gitee_oh_base_location.Background.{on_sa_state_change}
use gitee_oh_base_location.RequestManager.{Service}
use gitee_oh_base_location.RequestManager.Handlers.{handle_start_locating, handle_stop_locating}
use gitee_oh_base_location.ReportManager.{Report}

pub data Notice : Type 0 where
  on_locating_status_change on_error_report : (callback : ℕ) (code : ℤ) → Notice

pub record LocatorAbility (D : Type 0) : Type 0 where
  pub service : Service D
  pub report : Report D
  pub switch_value : Option ℤ
  pub takes_reset : Bool
  pub proxy_map : List String
  pub proxy_uids : List ℤ
  pub switch_callbacks : List (ℤ × ℕ)
  pub notices : List Notice

pub record AppIdentity : Type 0 where
  pub uid : ℤ
  pub pid : ℤ
  pub token_id : ℕ
  pub token_id_ex : ℕ
  pub first_token_id : ℕ
  pub bundle_name : String

abbrev pub disabled : ℤ
disabled = pos 0

abbrev pub enabled : ℤ
enabled = pos 1

abbrev pub error_switch_unopen : ℤ
error_switch_unopen = pos 0x0101

abbrev pub session_start : ℤ
session_start = pos 2

abbrev pub session_stop : ℤ
session_stop = pos 3

module _ {D : Type 0} where
  -- Where the value cannot be read, the switch is off and that is written.
  unfoldable pub query_switch_state : LocatorAbility D → LocatorAbility D × ℤ
  query_switch_state l = elim l.switch_value [
    | none ↦ (if l.takes_reset then record l { switch_value = some disabled } else l, disabled)
    | some state ↦ (l, state)
  ]

  -- ReportLocationStatus and ReportErrorStatus: both are silent while the switch is off.
  unfoldable pub report_notice : LocatorAbility D → Notice → LocatorAbility D × LocationErrCode
  report_notice l notice =
      let (l, state) = query_switch_state l in
      if state == disabled
      then (l, errcode_switch_off)
      else (record l { notices = l.notices ++ notice ∷ [] }, errcode_success)

  unfoldable pub report_location_status :
      LocatorAbility D → ℕ → ℤ → LocatorAbility D × LocationErrCode
  report_location_status l callback result =
      report_notice l (on_locating_status_change callback result)

  unfoldable pub report_error_status : LocatorAbility D → ℕ → ℤ → LocatorAbility D × LocationErrCode
  report_error_status l callback result = report_notice l (on_error_report callback result)

  unfoldable pub check_sa_valid : LocatorAbility D → Bool
  check_sa_valid l =
      any_by (λ name. name == gnss_ability) l.proxy_map
      && (any_by (λ name. name == network_ability) l.proxy_map
          && any_by (λ name. name == passive_ability) l.proxy_map)

  unfoldable pub update_sa_ability_handler : LocatorAbility D → LocatorAbility D
  update_sa_ability_handler l =
      let (l, state) = query_switch_state l in
      record l {
        service = record l.service {
          background = on_sa_state_change l.service.background (state == enabled);
        };
      }

  unfoldable pub list_size : LocatorAbility D → String → ℕ
  list_size l name = elim (lookup name l.service.requests) [ none ↦ 0 | some hs ↦ length hs ]

  unfoldable pub get_active_request_num : LocatorAbility D → ℕ
  get_active_request_num l = list_size l gnss_ability + list_size l network_ability

  -- ReportManager::UpdateRandom; `long_ago` is whether the interval has passed.
  unfoldable pub update_random : LocatorAbility D → Bool → D → LocatorAbility D
  update_random l long_ago random =
      if ltb 0 (get_active_request_num l)
      then l
      else if long_ago
      then record l { report = record l.report { offset_random = random } }
      else l

  -- The request object that StartLocating makes.
  unfoldable pub make_request :
      D → Location D → AppIdentity → RequestConfig D → ℕ → String → Request D
  make_request zero_double no_location identity config callback uuid = record {
    uid = identity.uid;
    pid = identity.pid;
    token_id = identity.token_id;
    first_token_id = identity.first_token_id;
    package_name = identity.bundle_name;
    uuid = uuid;
    config = set_config (new_request_config zero_double) config;
    callback = callback;
    is_requesting = false;
    is_using_location_perm = false;
    is_using_background_perm = false;
    is_using_approximately_perm = false;
    last_location = no_location;
  }

  -- What StartLocating does before it makes the request.
  unfoldable pub prepare : LocatorAbility D → ℕ → Bool → D → LocatorAbility D
  prepare l callback long_ago random =
      let (l, state) = query_switch_state l in
      let told =
        if state == disabled then (report_error_status l callback error_switch_unopen).0 else l in
      let valid = if check_sa_valid told then told else update_sa_ability_handler told in
      update_random valid long_ago random

  -- StartLocating, for the request `r` that it makes, at the number `h`.
  unfoldable pub start_locating :
      Env → LocatorAbility D → Bool → D → ℕ → Request D → LocatorAbility D × LocationErrCode
  start_locating env l long_ago random h r =
      let ready = prepare l r.callback long_ago random in
      let made = record ready.service { store = (h, r) ∷ ready.service.store } in
      let started = record ready { service = handle_start_locating env made h } in
      ((report_location_status started r.callback session_start).0, errcode_success)

  unfoldable pub stop_locating : Env → LocatorAbility D → ℕ → LocatorAbility D × LocationErrCode
  stop_locating env l callback =
      let stopped = record l { service = handle_stop_locating env l.service callback } in
      ((report_location_status stopped callback session_stop).0, errcode_success)

  unfoldable pub proxy_uid_for_freeze : LocatorAbility D → ℤ → Bool → LocatorAbility D
  proxy_uid_for_freeze l uid is_proxy =
      let others = filter_by (λ u. not (u == uid)) l.proxy_uids in
      record l { proxy_uids = if is_proxy then uid ∷ others else others }

  unfoldable pub reset_all_proxy : LocatorAbility D → LocatorAbility D
  reset_all_proxy l = record l { proxy_uids = [] }

  unfoldable pub is_proxy_uid : LocatorAbility D → ℤ → Bool
  is_proxy_uid l uid = any_by (λ u. u == uid) l.proxy_uids

  unfoldable pub register_switch_callback : LocatorAbility D → ℕ → ℤ → LocatorAbility D
  register_switch_callback l callback uid = record l {
    switch_callbacks = put_callback callback uid l.switch_callbacks;
  }

  unfoldable pub unregister_switch_callback : LocatorAbility D → ℕ → LocatorAbility D
  unregister_switch_callback l callback = record l {
    switch_callbacks = drop_callback callback l.switch_callbacks;
  }
