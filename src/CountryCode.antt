-- ===== src/CountryCode.antt =====
-- services/location_locator/locator/source/country_code_manager.cpp and
-- interfaces/inner_api/include/country_code.h: the country that the device is in, the callbacks that
-- are told of it and the events that are listened to while there are callbacks. The telephony and
-- locale services are parameters, as is whether a subscription succeeds. `GetCountryCodeByLocation`
-- has no geocoder and always gives the empty code.
pub mod Reliable
pub mod Listening
mod Tests
use gitee_oh_base_location.Base.{
  ℕ, Bool, List, Option, String, [], false, if◌then◌else◌, int_eq, length, ltb_ℤ, map, nat_eq, none,
  not, pos, some, string_eq, true, ℤ, ◌&&◌, ◌++◌, ◌==◌, ◌||◌,
}
use gitee_oh_base_location.Registry.{put_callback, drop_callback}
use gitee_oh_base_location.Parcel.{ParcelOps, int64, string16}

pub record CountryCode : Type 0 where
  pub country_code_str : String
  pub country_code_type : ℤ

abbrev pub country_code_from_locale : ℤ
country_code_from_locale = pos 1

abbrev pub country_code_from_sim : ℤ
country_code_from_sim = pos 2

abbrev pub country_code_from_location : ℤ
country_code_from_location = pos 3

abbrev pub country_code_from_network : ℤ
country_code_from_network = pos 4

unfoldable pub new_country_code : CountryCode
new_country_code = record { country_code_str = ""; country_code_type = country_code_from_locale }

unfoldable pub is_same : CountryCode → CountryCode → Bool
is_same c country =
    c.country_code_str == country.country_code_str
    && c.country_code_type == country.country_code_type

unfoldable pub is_more_reliable : CountryCode → ℤ → Bool
is_more_reliable c type = ltb_ℤ type c.country_code_type

module _ {D : Type 0} (o : ParcelOps D) where
  open o use {P, write, read_int64, read_string16}

  unfoldable pub marshalling : CountryCode → P → P
  marshalling c p = write (int64 c.country_code_type) (write (string16 c.country_code_str) p)

  unfoldable pub unmarshalling : P → CountryCode × P
  unmarshalling p =
      let (str, p₁) = read_string16 p in
      let (type, p₂) = read_int64 p₁ in
      (record { country_code_str = str; country_code_type = type }, p₂)

-- Whether the manager is subscribed to the events of the SIM card and of the network, and whether it
-- has the subscriber objects. `notices` are the calls of `OnCountryCodeChange`.
pub record CountryCodeManager : Type 0 where
  pub last_country_by_location : CountryCode
  pub last_country : CountryCode
  pub country_code_callbacks : List (ℤ × ℕ)
  pub sim_subscriber : Bool
  pub network_subscriber : Bool
  pub sim_events : Bool
  pub network_events : Bool
  pub notices : List (ℕ × CountryCode)

-- What the system tells: the codes of the network and the SIM card, the region of the system, and
-- whether the report manager has a last location.
pub record Sources : Type 0 where
  pub for_network : String
  pub for_sim : String
  pub system_region : String
  pub has_last_location : Bool

unfoldable pub new_manager : CountryCodeManager
new_manager = record {
  last_country_by_location = new_country_code;
  last_country = new_country_code;
  country_code_callbacks = [];
  sim_subscriber = false;
  network_subscriber = false;
  sim_events = false;
  network_events = false;
  notices = [];
}

unfoldable pub notify_all_listener : CountryCodeManager → CountryCodeManager
notify_all_listener m = record m {
  notices = m.notices ++ map (λ entry. (entry.1, m.last_country)) m.country_code_callbacks;
}

-- `subscribed` is whether `SubscribeCommonEvent` succeeds.
unfoldable pub subscribe_sim_event : Bool → CountryCodeManager → CountryCodeManager
subscribe_sim_event subscribed m = record m {
  sim_subscriber = true;
  sim_events = m.sim_events || subscribed;
}

unfoldable pub subscribe_network_status_event : Bool → CountryCodeManager → CountryCodeManager
subscribe_network_status_event subscribed m = record m {
  network_subscriber = true;
  network_events = m.network_events || subscribed;
}

unfoldable pub unsubscribe_sim_event : CountryCodeManager → CountryCodeManager
unsubscribe_sim_event m = if m.sim_subscriber then record m { sim_events = false } else m

unfoldable pub unsubscribe_network_status_event : CountryCodeManager → CountryCodeManager
unsubscribe_network_status_event m =
    if m.network_subscriber then record m { network_events = false } else m

-- `callback` is `none` where it is null, `is_cast` whether `iface_cast` gives an interface.
unfoldable pub register_country_code_callback :
    Bool → Bool → Option ℕ → ℤ → CountryCodeManager → CountryCodeManager
register_country_code_callback subscribed is_cast none uid m = m
register_country_code_callback subscribed is_cast (some callback) uid m =
    let put = record m {
      country_code_callbacks = put_callback callback uid m.country_code_callbacks;
    } in
    if not is_cast
    then m
    else if not (length put.country_code_callbacks == 1)
    then put
    else subscribe_network_status_event subscribed (subscribe_sim_event subscribed put)

unfoldable pub unregister_country_code_callback :
    Bool → Option ℕ → CountryCodeManager → CountryCodeManager
unregister_country_code_callback is_cast none m = m
unregister_country_code_callback is_cast (some callback) m =
    let dropped = record m {
      country_code_callbacks = drop_callback callback m.country_code_callbacks;
    } in
    if not is_cast
    then m
    else if not (length dropped.country_code_callbacks == 0)
    then dropped
    else unsubscribe_network_status_event (unsubscribe_sim_event dropped)

unfoldable pub is_country_code_registered : CountryCodeManager → Bool
is_country_code_registered m = not (length m.country_code_callbacks == 0)

-- GetCountryCodeByLocation, of a location that is there.
abbrev pub code_by_location : String
code_by_location = ""

unfoldable pub get_country_code_by_last_location :
    Sources → CountryCodeManager → CountryCodeManager × String
get_country_code_by_last_location sources m =
    if m.last_country_by_location.country_code_str == ""
    then (if not sources.has_last_location then (m, "") else (
      record m {
        last_country_by_location = record m.last_country_by_location {
          country_code_str = code_by_location;
        };
      },
      code_by_location,
    ))
    else (m, m.last_country_by_location.country_code_str)

unfoldable pub update_country_code : String → ℤ → CountryCodeManager → CountryCodeManager
update_country_code country_code type m =
    if is_more_reliable m.last_country type then m else record m {
      last_country = record { country_code_str = country_code; country_code_type = type };
    }

unfoldable pub update_country_code_by_location :
    String → ℤ → CountryCodeManager → CountryCodeManager × Bool
update_country_code_by_location country_code type m =
    if m.last_country_by_location.country_code_str == country_code then (m, false) else (
      record m {
        last_country_by_location = record {
          country_code_str = country_code;
          country_code_type = type;
        };
      },
      true,
    )

-- The code that is found now, and its type; the manager, since the location's code is kept.
unfoldable pub find_country_code : Sources → CountryCodeManager → CountryCodeManager × CountryCode
find_country_code sources m =
    let (located, by_location) = get_country_code_by_last_location sources m in
    if not (sources.for_network == "")
    then (
      m,
      record {
        country_code_str = sources.for_network;
        country_code_type = country_code_from_network;
      },
    )
    else if not (by_location == "")
    then (
      located,
      record { country_code_str = by_location; country_code_type = country_code_from_location },
    )
    else if not (sources.for_sim == "")
    then (
      located,
      record { country_code_str = sources.for_sim; country_code_type = country_code_from_sim },
    )
    else (
      located,
      record {
        country_code_str = sources.system_region;
        country_code_type = country_code_from_locale;
      },
    )

-- The end of GetIsoCountryCode, with the code that was found.
unfoldable pub accept_country : CountryCode → CountryCodeManager → CountryCodeManager
accept_country country m =
    if not (is_same country m.last_country)
      && not (is_more_reliable m.last_country country.country_code_type)
    then (notify_all_listener
        (update_country_code country.country_code_str country.country_code_type m))
    else m

unfoldable pub get_iso_country_code :
    Sources → CountryCodeManager → CountryCodeManager × CountryCode
get_iso_country_code sources m =
    let (m', country) = find_country_code sources m in
    let accepted = accept_country country m' in (accepted, accepted.last_country)

-- LocatorCallback::OnLocationReport, of a location that is there.
unfoldable pub on_location_report : Sources → CountryCodeManager → CountryCodeManager
on_location_report sources m =
    let (m', changed) =
      update_country_code_by_location code_by_location country_code_from_location m in
    if changed then (get_iso_country_code sources m').0 else m'

-- NetworkSubscriber::OnReceiveEvent, SimSubscriber::OnReceiveEvent and the callback of the locale.
unfoldable pub on_receive_event : Sources → CountryCodeManager → CountryCodeManager
on_receive_event sources m = (get_iso_country_code sources m).0

unfoldable pub re_subscribe_event : Bool → CountryCodeManager → CountryCodeManager
re_subscribe_event subscribed m =
    if length m.country_code_callbacks == 0
    then m
    else subscribe_network_status_event subscribed (subscribe_sim_event subscribed m)

unfoldable pub re_unsubscribe_event : CountryCodeManager → CountryCodeManager
re_unsubscribe_event m =
    if length m.country_code_callbacks == 0
    then m
    else unsubscribe_network_status_event (unsubscribe_sim_event m)
