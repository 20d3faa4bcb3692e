-- ===== src/GnssAbility/Callbacks.antt =====
-- The callbacks of gnss_ability.cpp: who is registered for the satellite status and for NMEA
-- messages, and whom a report reaches. The remote object of a callback is `none` where it is null;
-- `is_cast` is whether `iface_cast` gives an interface.
use gitee_oh_base_location.Base.{
  ℕ, Bool, List, Option, if◌then◌else◌, map, none, some, ℤ, arith, int_eq, lookup, nat_eq,
  string_eq, true, ◌&&◌, ◌==◌, ◌≡◌,
}
use gitee_oh_base_location.ErrCode.{
  LocationErrCode, errcode_success, errcode_invalid_param, errcode_not_supported,
}
use gitee_oh_base_location.Registry.{
  put_callback, drop_callback, is_absent, lookup-drop_callback-put_callback,
}
use gitee_oh_base_location.GnssAbility.{GnssAbility}

-- The callback that is named, where it can be used.
unfoldable pub cast_callback : Option ℕ → (ℕ → Bool) → Option ℕ
cast_callback none is_cast = none
cast_callback (some callback) is_cast = if is_cast callback then some callback else none

unfoldable pub register_in :
    Option ℕ → (ℕ → Bool) → ℤ → List (ℤ × ℕ) → List (ℤ × ℕ) × LocationErrCode
register_in callback is_cast uid m = elim (cast_callback callback is_cast) [
  | none ↦ (m, errcode_invalid_param)
  | some c ↦ (put_callback c uid m, errcode_success)
]

unfoldable pub unregister_in : Option ℕ → (ℕ → Bool) → List (ℤ × ℕ) → List (ℤ × ℕ) × LocationErrCode
unregister_in callback is_cast m = elim (cast_callback callback is_cast) [
  | none ↦ (m, errcode_invalid_param)
  | some c ↦ (drop_callback c m, errcode_success)
]

-- RegisterCachedCallback and UnregisterCachedCallback.
unfoldable pub register_cached_callback : (ℕ → Bool) → Option ℕ → LocationErrCode
register_cached_callback is_cast callback = elim (cast_callback callback is_cast) [
  | none ↦ errcode_invalid_param
  | some c ↦ errcode_not_supported
]

unfoldable pub unregister_cached_callback : (ℕ → Bool) → Option ℕ → LocationErrCode
unregister_cached_callback is_cast callback = elim (cast_callback callback is_cast) [
  | none ↦ errcode_invalid_param
  | some c ↦ errcode_not_supported
]

module _ {D : Type 0} (is_cast : ℕ → Bool) where
  unfoldable pub register_gnss_status_callback :
      GnssAbility D → Option ℕ → ℤ → GnssAbility D × LocationErrCode
  register_gnss_status_callback g callback uid =
      let (m, code) = register_in callback is_cast uid g.gnss_status_callbacks in
      (record g { gnss_status_callbacks = m }, code)

  unfoldable pub unregister_gnss_status_callback :
      GnssAbility D → Option ℕ → GnssAbility D × LocationErrCode
  unregister_gnss_status_callback g callback =
      let (m, code) = unregister_in callback is_cast g.gnss_status_callbacks in
      (record g { gnss_status_callbacks = m }, code)

  unfoldable pub register_nmea_message_callback :
      GnssAbility D → Option ℕ → ℤ → GnssAbility D × LocationErrCode
  register_nmea_message_callback g callback uid =
      let (m, code) = register_in callback is_cast uid g.nmea_callbacks in
      (record g { nmea_callbacks = m }, code)

  unfoldable pub unregister_nmea_message_callback :
      GnssAbility D → Option ℕ → GnssAbility D × LocationErrCode
  unregister_nmea_message_callback g callback =
      let (m, code) = unregister_in callback is_cast g.nmea_callbacks in
      (record g { nmea_callbacks = m }, code)

module _ {D : Type 0} where
  -- The callbacks whose `OnMessageChange` is called with the message, in order.
  unfoldable pub report_nmea : {M : Type 0} → GnssAbility D → ℤ → M → List (ℕ × ℤ × M)
  report_nmea g timestamp nmea = map (λ entry. (entry.1, timestamp, nmea)) g.nmea_callbacks

  -- The callbacks whose `OnStatusChange` is called with the status, in order.
  unfoldable pub report_sv : {S : Type 0} → GnssAbility D → S → List (ℕ × S)
  report_sv g sv = map (λ entry. (entry.1, sv)) g.gnss_status_callbacks

-- Registering and then deregistering a callback that nobody has: it is refused, twice and without
-- effect on the map, where it cannot be cast; else both succeed, the uid is left without a callback,
-- and every other uid keeps its own. The callbacks for NMEA messages are not touched. A null callback
-- is refused by both and changes nothing.
pub unregister_gnss_status_callback-register_gnss_status_callback :
    {D : Type 0} (is_cast : ℕ → Bool) (g : GnssAbility D) (callback : ℕ) (uid k : ℤ)
    → is_absent callback g.gnss_status_callbacks ≡ true
    → let (g', code) = register_gnss_status_callback is_cast g (some callback) uid in
      let (g'', code') = unregister_gnss_status_callback is_cast g' (some callback) in
      (code ≡ (if is_cast callback then errcode_success else errcode_invalid_param))
      × (code' ≡ code)
      × (lookup k g''.gnss_status_callbacks
          ≡ (if is_cast callback && uid == k then none else lookup k g.gnss_status_callbacks))
      × (g''.nmea_callbacks ≡ g.nmea_callbacks)
      × (register_gnss_status_callback is_cast g none uid ≡ (g, errcode_invalid_param))
      × (unregister_gnss_status_callback is_cast g none ≡ (g, errcode_invalid_param))
unfolding register_gnss_status_callback unregister_gnss_status_callback register_in unregister_in
    cast_callback
unregister_gnss_status_callback-register_gnss_status_callback is_cast g callback uid k absent =
    ground (arith, lookup-drop_callback-put_callback callback uid g.gnss_status_callbacks k absent)
