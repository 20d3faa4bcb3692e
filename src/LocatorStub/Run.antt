-- ===== src/LocatorStub/Run.antt =====
-- The locator behind its stub: what a message does to the locator's state.
use gitee_oh_base_location.Base.{ℕ, Bool, String, none, some, ℤ}
use gitee_oh_base_location.ErrCode.{LocationErrCode, errcode_success, errcode_switch_off}
use gitee_oh_base_location.Parcel.{ParcelOps}
use gitee_oh_base_location.Env.{Env}
use gitee_oh_base_location.Location.{Location}
use gitee_oh_base_location.ReportManager.{DoubleOps}
use gitee_oh_base_location.CountryCode.{
  CountryCodeManager, Sources, register_country_code_callback, unregister_country_code_callback,
  get_iso_country_code,
}
use gitee_oh_base_location.ConfigManager.{
  LocationConfigManager, get_privacy_type_state, set_privacy_type_state,
}
use gitee_oh_base_location.LocatorAbility.{
  LocatorAbility, AppIdentity, make_request, start_locating, stop_locating, query_switch_state,
  proxy_uid_for_freeze, reset_all_proxy,
}
use gitee_oh_base_location.LocatorAbility.Operations.{
  enable_ability, get_switch_state, get_cache_location, report_location, process_location_mock_msg,
  checked_register_switch_callback, checked_unregister_switch_callback,
}
use gitee_oh_base_location.LocatorStub.{
  Guards, Answer, passed, refused, refused_silently, unsupported, LocatorCall,
}
use gitee_oh_base_location.LocatorStub as Stub
use gitee_oh_base_location.LocatorStub.Dispatch.{LocatorInterfaceCode, on_remote_request}

pub record Locator (D : Type 0) : Type 0 where
  pub ability : LocatorAbility D
  pub country : CountryCodeManager
  pub config : LocationConfigManager

-- What the system answers while one message is handled.
pub record World (D : Type 0) : Type 0 where
  pub env : Env
  pub ops : DoubleOps D
  pub no_location : Location D
  -- Whether a coordinate is within PRECISION of 0.
  pub near_zero : D → Bool
  -- UpdateRandom: whether the interval has passed, and the random number.
  pub long_ago : Bool
  pub random : D
  -- The number of a new request and its uuid.
  pub new_request : ℕ
  pub uuid : String
  -- Whether the database takes the switch, files can be opened, and events are subscribed to.
  pub written : Bool
  pub opens : Bool
  pub subscribed : Bool
  pub user : ℤ
  pub own_uid : ℤ
  pub own_pid : ℤ
  pub is_cast : ℕ → Bool
  pub sources : Sources

-- The code that is written to the reply, or the ability that the call is passed on to, whose answer
-- it then is.
pub data Reply : Type 0 where
  answered : LocationErrCode → Reply
  passed_to_gnss passed_to_geo_convert : Reply
  no_reply : Reply

abbrev with_ability :
    {D : Type 0} → Locator D → LocatorAbility D × LocationErrCode → Locator D × Reply
with_ability l (ability, code) = (record l { ability = ability }, answered code)

-- What the checks of the stub ask while a message is handled.
abbrev pub guards : {D : Type 0} → World D → Locator D → Guards
guards w l = record {
  tokens = w.env.tokens;
  switch = (query_switch_state l.ability).1;
  own_uid = w.own_uid;
  own_pid = w.own_pid;
}

module _ {D P : Type 0} (w : World D) (l : Locator D) where
  unfoldable pub run : LocatorCall D P → Locator D × Reply
  run Stub.get_switch_state =
      let (ability, (_, code)) = get_switch_state l.ability in with_ability l (ability, code)
  run Stub.update_sa_ability = (l, answered errcode_success)
  run Stub.get_iso_country_code = (
    record l { country = (get_iso_country_code w.sources l.country).0 },
    answered errcode_success,
  )
  run Stub.reset_all_proxy = with_ability l (reset_all_proxy l.ability, errcode_success)
  run (Stub.register_switch_callback client uid) =
      with_ability l (checked_register_switch_callback w.is_cast l.ability client uid)
  run (Stub.unregister_switch_callback client) =
      with_ability l (checked_unregister_switch_callback w.is_cast l.ability client)
  run (Stub.start_locating config callback identity) = with_ability l (
      start_locating w.env l.ability w.long_ago w.random w.new_request
        (make_request w.ops.zero_double w.no_location identity config callback w.uuid))
  run (Stub.stop_locating callback) = with_ability l (stop_locating w.env l.ability callback)
  run (Stub.get_cache_location identity) =
      (l, answered (get_cache_location w.env w.ops w.near_zero l.ability identity).1)
  run (Stub.enable_ability is_enabled) =
      let (ability, (_, code)) = enable_ability w.written l.ability is_enabled in
      with_ability l (ability, code)
  run (Stub.is_location_privacy_confirmed type) =
      let (config, (_, code)) = get_privacy_type_state w.opens w.user type l.config in
      (record l { config = config }, answered code)
  run (Stub.set_location_privacy_confirm_status type is_confirmed) =
      let (config, code) = set_privacy_type_state w.opens w.user type is_confirmed l.config in
      (record l { config = config }, answered code)
  run (Stub.mock_location message) =
      let (ability, (_, code)) = process_location_mock_msg w.env message l.ability in
      with_ability l (ability, code)
  run (Stub.register_country_code_callback client uid) = (
    record l {
      country =
          register_country_code_callback w.subscribed (w.is_cast client) (some client) uid
            l.country;
    },
    answered errcode_success,
  )
  run (Stub.unregister_country_code_callback none) = (l, answered errcode_success)
  run (Stub.unregister_country_code_callback (some client)) = (
    record l {
      country = unregister_country_code_callback (w.is_cast client) (some client) l.country;
    },
    answered errcode_success,
  )
  run (Stub.proxy_uid_for_freeze uid is_proxy) =
      with_ability l (proxy_uid_for_freeze l.ability uid is_proxy, errcode_success)
  run (Stub.report_location system_ability location) =
      ((with_ability l (report_location w.env w.ops l.ability location system_ability)).0, no_reply)
  run Stub.is_geo_convert_available = (l, passed_to_geo_convert)
  run (Stub.get_address_by_coordinate message) = (l, passed_to_geo_convert)
  run (Stub.get_address_by_location_name message) = (l, passed_to_geo_convert)
  run Stub.enable_reverse_geocoding_mock = (l, passed_to_geo_convert)
  run Stub.disable_reverse_geocoding_mock = (l, passed_to_geo_convert)
  run (Stub.set_reverse_geocoding_mock_info message) = (l, passed_to_geo_convert)
  run _ = (l, passed_to_gnss)

  -- What the stub does with the answer of a handler. A handler that refuses since the switch is off
  -- has asked for it, and to ask changes what is stored only where that cannot be read, which is
  -- where the switch is off too.
  unfoldable pub carry_out : Answer D P → Locator D × Reply
  carry_out (passed c) = run c
  carry_out (refused errcode_switch_off) =
      (record l { ability = (query_switch_state l.ability).0 }, answered errcode_switch_off)
  carry_out (refused code) = (l, answered code)
  carry_out (refused_silently code) = (l, no_reply)
  carry_out unsupported = (l, no_reply)

module _ {D : Type 0} (o : ParcelOps D) (w : World D) (identity : AppIdentity) where
  -- A message, from the stub to the locator.
  unfoldable pub handle_message : Bool → LocatorInterfaceCode → o.P → Locator D → Locator D × Reply
  handle_message own_token code p l =
      carry_out w l (on_remote_request o w.ops.zero_double (guards w l) identity own_token code p)
