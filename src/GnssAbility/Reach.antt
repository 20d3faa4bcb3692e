-- ===== src/GnssAbility/Reach.antt =====
-- The states that the GNSS ability can be in, and the order of the calls in all of them.
use gitee_oh_base_location.Base.{ℕ, Bool, Option, refl, ℤ}
use gitee_oh_base_location.WorkRecord.{WorkRecord}
use gitee_oh_base_location.GnssAbility.{
  GnssAbility, new_gnss_ability, Hdi, enable_gnss, disable_gnss, start_gnss, stop_gnss, set_set_id,
  set_ref_info, on_remote_died, destroy, send_location_request, refrash_requirements,
}
use gitee_oh_base_location.GnssAbility.Callbacks.{
  register_gnss_status_callback, unregister_gnss_status_callback, register_nmea_message_callback,
  unregister_nmea_message_callback,
}
use gitee_oh_base_location.GnssAbility.Messages.{
  Event, event_report_location, event_send_location_request, event_set_mocked_locations,
  event_other, gnss_enable_mock, gnss_disable_mock, gnss_set_mocked, gnss_report_location_mock,
  handle_event, process_event,
}
use gitee_oh_base_location.GnssAbility.Protocol.{
  IsTracked, enable_gnss-IsTracked, disable_gnss-IsTracked, start_gnss-IsTracked,
  stop_gnss-IsTracked, set_set_id-IsTracked, set_ref_info-IsTracked, on_remote_died-IsTracked,
  destroy-IsTracked, send_location_request-IsTracked, refrash_requirements-IsTracked,
}

-- The states that the ability can be in: after any calls of its interface and any events of its
-- handler, whatever the driver answers to each.
pub data Reached {D : Type 0} : GnssAbility D → Type 0 where
  made : Reached new_gnss_ability
  processed :
      (hdis : ℕ → Hdi) (passive : Bool) (event : Event D) {g : GnssAbility D}
      → Reached g
      → Reached (process_event hdis passive event g).0
  requested :
      (hdis : ℕ → Hdi) (w : WorkRecord) {g : GnssAbility D}
      → Reached g
      → Reached (send_location_request hdis g w)
  refrashed :
      (hdis : ℕ → Hdi) {g : GnssAbility D} → Reached g → Reached (refrash_requirements hdis g)
  died : (hdi : Hdi) {g : GnssAbility D} → Reached g → Reached (on_remote_died hdi g)
  destroyed : (hdi : Hdi) {g : GnssAbility D} → Reached g → Reached (destroy hdi g)
  enabled_by : (hdi : Hdi) {g : GnssAbility D} → Reached g → Reached (enable_gnss hdi g).0
  disabled_by : (hdi : Hdi) {g : GnssAbility D} → Reached g → Reached (disable_gnss hdi g)
  started_by : (hdi : Hdi) {g : GnssAbility D} → Reached g → Reached (start_gnss hdi g)
  stopped_by : (hdi : Hdi) {g : GnssAbility D} → Reached g → Reached (stop_gnss hdi g)
  id_set : (id : ℕ) {g : GnssAbility D} → Reached g → Reached (set_set_id id g)
  ref_info_set : (info : ℕ) {g : GnssAbility D} → Reached g → Reached (set_ref_info info g)
  status_registered :
      (is_cast : ℕ → Bool) (callback : Option ℕ) (uid : ℤ) {g : GnssAbility D}
      → Reached g
      → Reached (register_gnss_status_callback is_cast g callback uid).0
  status_unregistered :
      (is_cast : ℕ → Bool) (callback : Option ℕ) {g : GnssAbility D}
      → Reached g
      → Reached (unregister_gnss_status_callback is_cast g callback).0
  nmea_registered :
      (is_cast : ℕ → Bool) (callback : Option ℕ) (uid : ℤ) {g : GnssAbility D}
      → Reached g
      → Reached (register_nmea_message_callback is_cast g callback uid).0
  nmea_unregistered :
      (is_cast : ℕ → Bool) (callback : Option ℕ) {g : GnssAbility D}
      → Reached g
      → Reached (unregister_nmea_message_callback is_cast g callback).0
  mock_enabled : {g : GnssAbility D} → Reached g → Reached (gnss_enable_mock g).0
  mock_disabled : {g : GnssAbility D} → Reached g → Reached (gnss_disable_mock g).0

handle_event-IsTracked :
    {D : Type 0} (hdis : ℕ → Hdi) (passive : Bool) (event : Event D) (g : GnssAbility D)
    → IsTracked g
    → IsTracked (handle_event hdis passive event g)
unfolding handle_event gnss_report_location_mock gnss_set_mocked
handle_event-IsTracked hdis passive event_report_location g h = h
handle_event-IsTracked hdis passive (event_send_location_request w) g h =
    send_location_request-IsTracked hdis g w h
handle_event-IsTracked hdis passive (event_set_mocked_locations i ls) g h = h
handle_event-IsTracked hdis passive event_other g h = h

-- In every state that can be reached, the calls made to the driver so far obey its order: sessions
-- start only while GNSS is enabled and no session runs, they end and the AGNSS interface is used only
-- while GNSS is enabled; and the working status is the one that the driver's answers lead to.
pub Reached-IsTracked : {D : Type 0} (g : GnssAbility D) → Reached g → IsTracked g
unfolding new_gnss_ability process_event register_gnss_status_callback
    unregister_gnss_status_callback register_nmea_message_callback unregister_nmea_message_callback
    gnss_enable_mock gnss_disable_mock
Reached-IsTracked _ made = refl
Reached-IsTracked _ (processed hdis passive event r) =
    handle_event-IsTracked hdis passive event _ (Reached-IsTracked _ r)
Reached-IsTracked _ (requested hdis w r) =
    send_location_request-IsTracked hdis _ w (Reached-IsTracked _ r)
Reached-IsTracked _ (refrashed hdis r) =
    refrash_requirements-IsTracked hdis _ (Reached-IsTracked _ r)
Reached-IsTracked _ (died hdi r) = on_remote_died-IsTracked hdi _ (Reached-IsTracked _ r)
Reached-IsTracked _ (destroyed hdi r) = destroy-IsTracked hdi _ (Reached-IsTracked _ r)
Reached-IsTracked _ (enabled_by hdi r) = enable_gnss-IsTracked hdi _ (Reached-IsTracked _ r)
Reached-IsTracked _ (disabled_by hdi r) = disable_gnss-IsTracked hdi _ (Reached-IsTracked _ r)
Reached-IsTracked _ (started_by hdi r) = start_gnss-IsTracked hdi _ (Reached-IsTracked _ r)
Reached-IsTracked _ (stopped_by hdi r) = stop_gnss-IsTracked hdi _ (Reached-IsTracked _ r)
Reached-IsTracked _ (id_set id r) = set_set_id-IsTracked id _ (Reached-IsTracked _ r)
Reached-IsTracked _ (ref_info_set info r) = set_ref_info-IsTracked info _ (Reached-IsTracked _ r)
Reached-IsTracked _ (status_registered _ _ _ r) = Reached-IsTracked _ r
Reached-IsTracked _ (status_unregistered _ _ r) = Reached-IsTracked _ r
Reached-IsTracked _ (nmea_registered _ _ _ r) = Reached-IsTracked _ r
Reached-IsTracked _ (nmea_unregistered _ _ r) = Reached-IsTracked _ r
Reached-IsTracked _ (mock_enabled r) = Reached-IsTracked _ r
Reached-IsTracked _ (mock_disabled r) = Reached-IsTracked _ r
