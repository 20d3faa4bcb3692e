-- ===== src/GnssAbility.antt =====
-- services/location_gnss/gnss/source/gnss_ability.cpp: the state of the GNSS ability, and its
-- connection to the GNSS driver (HDI). The driver, its device manager and the event runner are not
-- part of the repository: an `Hdi` holds what they answer while one call of the ability runs. `calls`
-- records the calls that are made to them, with the answer where the ability reads it; waiting is
-- recorded, not timed. `new (std::nothrow)` gives an object.
pub mod Callbacks
pub mod Messages
pub mod Connect
pub mod Protocol
pub mod Reach
pub mod Session
pub mod Stuck
mod Tests
use gitee_oh_base_location.Base.{
  ℕ, Bool, List, String, [], false, if◌then◌else◌, int_eq, nat_eq, not, pos, string_eq, suc, true,
  zero, ℤ, ◌&&◌, ◌++◌, ◌+◌, ◌==◌, ◌||◌, ◌∷◌,
}
use gitee_oh_base_location.Lifecycle.{Lifecycle, new_lifecycle}
use gitee_oh_base_location.WorkRecord.{WorkRecord, get_pid, get_uid}
use gitee_oh_base_location.SubAbility.{
  RequestRecord, get_request_num, location_request, handle_refrash_requirements,
}
use gitee_oh_base_location.Mock.{Mock, new_mock}

pub data GnssWorkingStatus : Type 0 where
  gnss_status_none gnss_status_session_begin gnss_status_session_end : GnssWorkingStatus
  gnss_status_engine_on gnss_status_engine_off : GnssWorkingStatus

pub data Call : Type 0 where
  load_device unload_device : (name : String) → Call
  enable_call disable_call start_call stop_call : (ok : Bool) → Call
  set_agnss_server_call : (server : String) (port : ℕ) → Call
  set_agnss_callback_call add_death_recipient : Call
  -- The id and the reference information are named by numbers.
  set_subscriber_set_id set_agnss_ref_info : (value : ℕ) → Call
  sleep_ms : ℕ → Call
  write_gnss_state_event : (state : String) (pid uid : ℤ) → Call

pub record GnssAbility (D : Type 0) : Type 0 where
  pub mock : Mock D
  pub lifecycle : Lifecycle
  pub gnss_status_callbacks : List (ℤ × ℕ)
  pub nmea_callbacks : List (ℤ × ℕ)
  -- Whether the pointers are not null.
  pub gnss_interface : Bool
  pub agnss_interface : Bool
  pub gnss_callback : Bool
  pub agnss_callback : Bool
  pub gnss_working_status : GnssWorkingStatus
  pub is_hdi_connected : Bool
  pub calls : List Call

-- What the driver answers. A device is loaded or unloaded, and the engine obeys, where the answer is
-- zero; `attempt n` is whether the two `Get()` of round `n` give an interface.
pub record Hdi : Type 0 where
  pub device_manager : Bool
  pub load_gnss : Bool
  pub load_agnss : Bool
  pub unload_gnss : Bool
  pub unload_agnss : Bool
  pub attempt : ℕ → Bool × Bool
  pub object : Bool
  pub enable_ok : Bool
  pub disable_ok : Bool
  pub start_ok : Bool
  pub stop_ok : Bool

abbrev pub get_hdi_service_count : ℕ
get_hdi_service_count = 30

abbrev pub wait_ms : ℕ
wait_ms = 200

abbrev pub gnss_service_name : String
gnss_service_name = "gnss_interface_service"

abbrev pub agnss_service_name : String
agnss_service_name = "agnss_interface_service"

abbrev pub agnss_server_addr : String
agnss_server_addr = "supl.platform.hicloud.com"

abbrev pub agnss_server_port : ℕ
agnss_server_port = 7275

unfoldable pub enabled_status : GnssWorkingStatus → Bool
enabled_status gnss_status_engine_off = false
enabled_status gnss_status_none = false
enabled_status _ = true

unfoldable pub in_session : GnssWorkingStatus → Bool
in_session gnss_status_session_begin = true
in_session _ = false

module _ {D : Type 0} where
  unfoldable pub new_gnss_ability : GnssAbility D
  new_gnss_ability = record {
    mock = new_mock;
    lifecycle = new_lifecycle;
    gnss_status_callbacks = [];
    nmea_callbacks = [];
    gnss_interface = false;
    agnss_interface = false;
    gnss_callback = false;
    agnss_callback = false;
    gnss_working_status = gnss_status_none;
    is_hdi_connected = false;
    calls = [];
  }

  unfoldable pub call : GnssAbility D → Call → GnssAbility D
  call g c = record g { calls = g.calls ++ c ∷ [] }

  unfoldable pub is_gnss_enabled : GnssAbility D → Bool
  is_gnss_enabled g = enabled_status g.gnss_working_status

  unfoldable pub enable_gnss : Hdi → GnssAbility D → GnssAbility D × Bool
  enable_gnss hdi g = if not g.gnss_interface || not g.gnss_callback then (g, false) else (
    record (call g (enable_call hdi.enable_ok)) {
      gnss_working_status = if hdi.enable_ok then gnss_status_engine_on else gnss_status_none;
    },
    true,
  )

  unfoldable pub disable_gnss : Hdi → GnssAbility D → GnssAbility D
  disable_gnss hdi g =
      if not g.gnss_interface
      then g
      else if not (is_gnss_enabled g)
      then g
      else let called = call g (disable_call hdi.disable_ok) in
        if hdi.disable_ok
        then record called { gnss_working_status = gnss_status_engine_off }
        else called

  unfoldable pub start_gnss : Hdi → GnssAbility D → GnssAbility D
  start_gnss hdi g =
      if not g.gnss_interface
      then g
      else if not (is_gnss_enabled g)
      then g
      else if in_session g.gnss_working_status
      then g
      else if get_request_num g.mock.sub == 0
      then g
      else let called = call g (start_call hdi.start_ok) in
        if hdi.start_ok
        then record called { gnss_working_status = gnss_status_session_begin }
        else called

  unfoldable pub stop_gnss : Hdi → GnssAbility D → GnssAbility D
  stop_gnss hdi g =
      if not g.gnss_interface
      then g
      else if not (is_gnss_enabled g)
      then g
      else if not (get_request_num g.mock.sub == 0)
      then g
      else let called = call g (stop_call hdi.stop_ok) in
        if hdi.stop_ok
        then record called { gnss_working_status = gnss_status_session_end }
        else called

  unfoldable pub register_location_hdi_death_recipient : Hdi → GnssAbility D → GnssAbility D
  register_location_hdi_death_recipient hdi g =
      if not g.gnss_interface then g else if not hdi.object then g else call g add_death_recipient

  -- Rounds `retry` to `retry + rounds - 1` of the loop.
  unfoldable pub connect_rounds : Hdi → ℕ → ℕ → GnssAbility D → GnssAbility D × Bool
  connect_rounds hdi zero retry g = (g, false)
  connect_rounds hdi (suc rounds) retry g =
      let (gnss, agnss) = hdi.attempt retry in
      let got = record g { gnss_interface = gnss; agnss_interface = agnss } in
      let rest = connect_rounds hdi rounds (retry + 1) (call got (sleep_ms wait_ms)) in
      if gnss && agnss
      then (
        register_location_hdi_death_recipient hdi
            (record got { gnss_callback = true; agnss_callback = true }),
        true,
      )
      else rest

  unfoldable pub connect_hdi : Hdi → GnssAbility D → GnssAbility D × Bool
  connect_hdi hdi g =
      let first = call g (load_device gnss_service_name) in
      let second = call first (load_device agnss_service_name) in
      if not hdi.device_manager
      then (g, false)
      else if not hdi.load_gnss
      then (first, false)
      else if not hdi.load_agnss
      then (second, false)
      else connect_rounds hdi get_hdi_service_count 0 second

  unfoldable pub remove_hdi : Hdi → GnssAbility D → GnssAbility D × Bool
  remove_hdi hdi g =
      let first = call g (unload_device gnss_service_name) in
      let second = call first (unload_device agnss_service_name) in
      if not hdi.device_manager
      then (g, false)
      else if not hdi.unload_gnss
      then (first, false)
      else if not hdi.unload_agnss
      then (second, false)
      else (second, true)

  -- SetAgnssServer, SetAgnssCallback, SetSetId and SetRefInfo: a call to the AGNSS interface, made if
  -- the pointers that it needs are not null and GNSS is enabled.
  unfoldable pub agnss_call : Bool → Call → GnssAbility D → GnssAbility D
  agnss_call not_null c g =
      if not not_null then g else if not (is_gnss_enabled g) then g else call g c

  unfoldable pub set_agnss_server : GnssAbility D → GnssAbility D
  set_agnss_server g =
      agnss_call g.agnss_interface (set_agnss_server_call agnss_server_addr agnss_server_port) g

  unfoldable pub set_agnss_callback : GnssAbility D → GnssAbility D
  set_agnss_callback g =
      agnss_call (g.agnss_interface && g.agnss_callback) set_agnss_callback_call g

  unfoldable pub set_set_id : ℕ → GnssAbility D → GnssAbility D
  set_set_id id g = agnss_call g.agnss_interface (set_subscriber_set_id id) g

  unfoldable pub set_ref_info : ℕ → GnssAbility D → GnssAbility D
  set_ref_info ref_info g = agnss_call g.agnss_interface (set_agnss_ref_info ref_info) g

  -- What RequestRecord and ReConnectHdi do alike before StartGnss.
  unfoldable pub bring_up : Hdi → GnssAbility D → GnssAbility D
  bring_up hdi g = set_agnss_server (set_agnss_callback (enable_gnss hdi (connect_hdi hdi g).0).0)

  -- The two branches of RequestRecord.
  unfoldable pub add_request : Hdi → GnssAbility D → GnssAbility D
  add_request hdi g =
      start_gnss hdi
        (if not g.is_hdi_connected then record (bring_up hdi g) { is_hdi_connected = true } else g)

  unfoldable pub remove_request : Hdi → GnssAbility D → GnssAbility D
  remove_request hdi g =
      let stopped = stop_gnss hdi g in
      if g.is_hdi_connected
      then (if get_request_num stopped.mock.sub == 0
          then record (remove_hdi hdi stopped).0 { is_hdi_connected = false }
          else stopped)
      else g

  unfoldable pub request_record : Hdi → RequestRecord → GnssAbility D → GnssAbility D
  request_record hdi r g = call (if r.is_added then add_request hdi g else remove_request hdi g) (
      write_gnss_state_event (if r.is_added then "start" else "stop")
        (get_pid r.work_record (pos 0)) (get_uid r.work_record (pos 0)))

  unfoldable pub re_connect_hdi : Hdi → GnssAbility D → GnssAbility D
  re_connect_hdi hdi g = if not g.is_hdi_connected then g else start_gnss hdi (bring_up hdi g)

  -- LocationHdiDeathRecipient::OnRemoteDied
  unfoldable pub on_remote_died : Hdi → GnssAbility D → GnssAbility D
  on_remote_died hdi g = re_connect_hdi hdi (call g (sleep_ms wait_ms))

  -- The destructor.
  unfoldable pub destroy : Hdi → GnssAbility D → GnssAbility D
  destroy hdi g =
      let dropped = record g { gnss_callback = false; agnss_callback = false } in
      if g.is_hdi_connected
      then record (remove_hdi hdi (disable_gnss hdi dropped)).0 { is_hdi_connected = false }
      else dropped

  -- The calls of `RequestRecord`, in their order; call `n` meets the answers `hdis n`.
  unfoldable pub request_records :
      (ℕ → Hdi) → ℕ → List RequestRecord → GnssAbility D → GnssAbility D
  request_records hdis n [] g = g
  request_records hdis n (r ∷ rs) g = request_records hdis (n + 1) rs (request_record (hdis n) r g)

  unfoldable pub send_location_request : (ℕ → Hdi) → GnssAbility D → WorkRecord → GnssAbility D
  send_location_request hdis g workrecord =
      let (sub, records) = location_request g.mock.sub workrecord in
      request_records hdis 0 records (record g { mock = record g.mock { sub = sub } })

  unfoldable pub refrash_requirements : (ℕ → Hdi) → GnssAbility D → GnssAbility D
  refrash_requirements hdis g =
      let (sub, records) = handle_refrash_requirements g.mock.sub in
      request_records hdis 0 records (record g { mock = record g.mock { sub = sub } })
