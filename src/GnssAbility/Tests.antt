-- ===== src/GnssAbility/Tests.antt =====
-- Runs of the GNSS ability, and the witnesses of its properties.
use gitee_oh_base_location.Base.{
  ℕ, [], arith, false, int_eq, lookup, ltb, nat_eq, none, not, pos, refl, some, string_eq, true,
  ◌<◌, ◌↔◌, ◌∷◌, ◌≡◌,
}
use gitee_oh_base_location.ErrCode.{errcode_success, errcode_invalid_param}
use gitee_oh_base_location.WorkRecord.{WorkRecord, is_empty, new_record, size}
use gitee_oh_base_location.WorkRecord.Columns.{Row, columns, columns-IsValid}
use gitee_oh_base_location.SubAbility.{RequestRecord, new_sub_ability, get_request_num}
use gitee_oh_base_location.Mock.{new_mock}
use gitee_oh_base_location.Lifecycle.{new_lifecycle}
use gitee_oh_base_location.GnssAbility.{
  GnssAbility, new_gnss_ability, Hdi, connect_hdi, send_location_request, request_record,
  request_records, gnss_status_none, in_session,
}
use gitee_oh_base_location.GnssAbility.Callbacks.{
  register_gnss_status_callback, unregister_gnss_status_callback,
  unregister_gnss_status_callback-register_gnss_status_callback,
}
use gitee_oh_base_location.GnssAbility.Connect.{connect_hdi_lem, both, loads}
use gitee_oh_base_location.GnssAbility.Protocol.{IsTracked}
use gitee_oh_base_location.GnssAbility.Reach.{made, requested, Reached-IsTracked}
use gitee_oh_base_location.GnssAbility.Session.{
  IsAnswering, IsServing, has_session, send_location_request_lem,
}
use gitee_oh_base_location.GnssAbility.Stuck.{IsStuck, request_records-request_record-IsStuck}

-- The interfaces come up in round 2.
abbrev driver : Hdi
driver = record {
  device_manager = true;
  load_gnss = true;
  load_agnss = true;
  unload_gnss = true;
  unload_agnss = true;
  attempt = λ n. (ltb 1 n, true);
  object = true;
  enable_ok = true;
  disable_ok = true;
  start_ok = true;
  stop_ok = true;
}

abbrev no_driver : Hdi
no_driver = record driver { load_gnss = false }

driver-IsAnswering : IsAnswering driver
driver-IsAnswering = record {
  loaded = refl;
  round = 2;
  in_time = omega arith;
  found = refl;
  enables = refl;
  starts = refl;
  stops = refl;
}

abbrev maps : Row
maps = record { uid = pos 20; pid = pos 7; name = "maps"; interval = pos 5; uuid = "a" }

abbrev asked : WorkRecord
asked = columns "" (maps ∷ [])

abbrev idle : GnssAbility ℕ
unfolding new_gnss_ability new_mock new_sub_ability new_record new_lifecycle
idle = new_gnss_ability

idle-IsServing : IsServing idle
unfolding is_empty in_session idle
idle-IsServing = record {
  settled = record {
    last_valid = columns-IsValid "" [];
    new_valid = columns-IsValid "" [];
    last_id = refl;
    new_id = refl;
  };
  same_rows = refl;
  active = refl;
  connected = refl;
  session = refl;
}

connect_hdi_lem_example :
    let (g', ok) = connect_hdi driver idle in
    ((ok ≡ true) ↔ ((loads driver ≡ true) × (k : ℕ) × (k < 30) × (both driver k ≡ true)))
    × (g'.mock ≡ idle.mock)
    × (g'.gnss_working_status ≡ idle.gnss_working_status)
    × (g'.is_hdi_connected ≡ idle.is_hdi_connected)
connect_hdi_lem_example = connect_hdi_lem driver idle

send_location_request_lem_example :
    let g' = send_location_request (λ n. driver) idle asked in
    IsServing g'
    × (g'.is_hdi_connected ≡ not (is_empty asked))
    × (has_session g' ≡ not (is_empty asked))
send_location_request_lem_example =
    send_location_request_lem (λ n. driver) idle asked (λ n. driver-IsAnswering) idle-IsServing
      (columns-IsValid "" (maps ∷ []))

Reached-IsTracked_example :
    IsTracked (send_location_request (λ n. driver) (new_gnss_ability {D = ℕ}) asked)
Reached-IsTracked_example =
    Reached-IsTracked (send_location_request (λ n. driver) (new_gnss_ability {D = ℕ}) asked)
      (requested (λ n. driver) asked made)

abbrev waiting : GnssAbility ℕ
waiting = record idle {
  mock = record idle.mock { sub = record idle.mock.sub { new_record = asked } };
}

abbrev addition : RequestRecord
addition = record { work_record = asked; is_added = true }

request_records-request_record-IsStuck_example : IsStuck gnss_status_none (
    request_records
      (λ n. driver)
      1
      (addition ∷ addition ∷ [])
      (request_record no_driver addition waiting))
unfolding idle get_request_num size
request_records-request_record-IsStuck_example =
    request_records-request_record-IsStuck no_driver (λ n. driver) 1 addition
      (addition ∷ addition ∷ []) waiting refl refl refl refl refl

unregister_gnss_status_callback-register_gnss_status_callback_example :
    let (g', code) = register_gnss_status_callback (λ c. true) idle (some 3) (pos 20) in
    let (g'', code') = unregister_gnss_status_callback (λ c. true) g' (some 3) in
    (code ≡ errcode_success)
    × (code' ≡ code)
    × (lookup (pos 20) g''.gnss_status_callbacks ≡ none)
    × (g''.nmea_callbacks ≡ idle.nmea_callbacks)
    × (register_gnss_status_callback (λ c. true) idle none (pos 20) ≡ (idle, errcode_invalid_param))
    × (unregister_gnss_status_callback (λ c. true) idle none ≡ (idle, errcode_invalid_param))
unfolding idle
unregister_gnss_status_callback-register_gnss_status_callback_example =
    unregister_gnss_status_callback-register_gnss_status_callback (λ c. true) idle 3 (pos 20)
      (pos 20) refl
