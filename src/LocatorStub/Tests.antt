-- ===== src/LocatorStub/Tests.antt =====
-- Messages to the stub, and the witnesses of its properties.
use gitee_oh_base_location.Base.{
  ℕ, [], false, ltb, nat_beq, pos, refl, some, true, ◌+◌, ◌-◌, ◌∷◌, ◌≡◌,
}
use gitee_oh_base_location.Common.{
  check_location_permission, check_approximately_permission, check_permission,
  check_secure_settings, check_system_permission,
}
use gitee_oh_base_location.Parcel.{ParcelOps, bool, remote_object}
use gitee_oh_base_location.Parcel.Queue.{queue}
use gitee_oh_base_location.Samples.{env, service, place, all_granted}
use gitee_oh_base_location.ReportManager.{DoubleOps}
use gitee_oh_base_location.CountryCode.{new_manager}
use gitee_oh_base_location.ConfigManager.{new_config_manager}
use gitee_oh_base_location.LocatorAbility.{AppIdentity}
use gitee_oh_base_location.LocatorStub.{
  Guards, LocatorCall, register_gnss_status_callback, location_permission, system_permission,
  settings_permission,
}
use gitee_oh_base_location.LocatorStub.Handlers.{pre_register_gnss_status_callback}
use gitee_oh_base_location.LocatorStub.Dispatch.{
  code_register_gnss_status_callback, code_enable_ability, handle_code, on_remote_request,
}
use gitee_oh_base_location.LocatorStub.Guarded.{may, acts_for, on_remote_request-may}
use gitee_oh_base_location.LocatorStub.Run.{Locator, World, handle_message}
use gitee_oh_base_location.LocatorAbility.{query_switch_state}
use gitee_oh_base_location.LocatorAbility.Switch.{IsKept}
use gitee_oh_base_location.LocatorStub.Protected.{switch_value-handle_message}

abbrev parcels : ParcelOps ℕ
parcels = queue 0

-- An app with the permissions for locations, which is no system app.
abbrev app : AppIdentity
app = record {
  uid = pos 20;
  pid = pos 7;
  token_id = 5;
  token_id_ex = 5;
  first_token_id = 0;
  bundle_name = "maps";
}

abbrev checks_of : Guards
checks_of = record { tokens = all_granted; switch = pos 1; own_uid = pos 1; own_pid = pos 2 }

on_remote_request-may_example :
    let c : LocatorCall ℕ parcels.P = register_gnss_status_callback (some 3) (pos 20) in
    (may checks_of app c ≡ true) × (acts_for app c ≡ true) × (true ≡ true)
unfolding on_remote_request handle_code pre_register_gnss_status_callback location_permission
    check_location_permission check_approximately_permission check_permission
on_remote_request-may_example =
    on_remote_request-may parcels 0 checks_of app true code_register_gnss_status_callback
      (remote_object (some 3) ∷ []) (register_gnss_status_callback (some 3) (pos 20)) refl

abbrev double_ops : DoubleOps ℕ
double_ops = record {
  zero_double = 0;
  less = ltb;
  minus = λ a b. a - b;
  double_equal = nat_beq;
  cal_distance = λ a b c d. 0;
  no_latitude = 1000;
  low_latitude = 0;
  max_latitude = 90;
  low_longitude = 0;
  max_longitude = 180;
  approximately_accuracy = 5000;
  shift_latitude = λ a b. a + b;
  shift_longitude = λ a b. a + b;
  round_double = λ a. a;
}

abbrev world : World ℕ
world = record {
  env = env;
  ops = double_ops;
  no_location = place 1000;
  near_zero = nat_beq 0;
  long_ago = false;
  random = 1;
  new_request = 9;
  uuid = "r";
  written = true;
  opens = true;
  subscribed = true;
  user = pos 100;
  own_uid = pos 1;
  own_pid = pos 2;
  is_cast = λ c. true;
  sources = record {
    for_network = "";
    for_sim = "cn";
    system_region = "de";
    has_last_location = true;
  };
}

abbrev locator : Locator ℕ
locator = record {
  ability = record {
    service = service;
    report = record { last_location = place 1000; offset_random = 2; delivered = [] };
    switch_value = some (pos 1);
    takes_reset = true;
    proxy_map = [];
    proxy_uids = [];
    switch_callbacks = [];
    notices = [];
  };
  country = new_manager;
  config = new_config_manager;
}

switch_value-handle_message_example :
    let l' =
      (handle_message parcels world app true code_enable_ability (bool false ∷ []) locator).0 in
    IsKept (some (pos 1)) l'.ability.switch_value
    × ((query_switch_state l'.ability).1 ≡ (query_switch_state locator.ability).1)
unfolding system_permission settings_permission check_system_permission check_secure_settings
    check_permission
switch_value-handle_message_example =
    switch_value-handle_message parcels world app true code_enable_ability (bool false ∷ []) locator
      refl
