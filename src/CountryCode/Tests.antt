-- ===== src/CountryCode/Tests.antt =====
-- Runs of the country code, and the witnesses of its properties.
use gitee_oh_base_location.Base.{pos, some, true, ◌≡◌}
use gitee_oh_base_location.CountryCode.{
  CountryCodeManager, Sources, new_manager, new_country_code, get_iso_country_code,
  register_country_code_callback,
}
use gitee_oh_base_location.CountryCode.Reliable.{IsDecided, candidate, get_iso_country_code_lem}
use gitee_oh_base_location.CountryCode.Listening.{
  IsListening, made, registered, asked, Reached-IsListening,
}

abbrev abroad : Sources
abroad = record { for_network = ""; for_sim = "cn"; system_region = "de"; has_last_location = true }

abbrev fresh : CountryCodeManager
unfolding new_manager new_country_code
fresh = new_manager

get_iso_country_code_lem_example :
    let (m', country) = get_iso_country_code abroad fresh in
    (country ≡ m'.last_country) × IsDecided fresh (candidate abroad fresh) m'
get_iso_country_code_lem_example = get_iso_country_code_lem abroad fresh

abbrev told_once : CountryCodeManager
told_once =
    (get_iso_country_code abroad
      (register_country_code_callback true true (some 4) (pos 20) new_manager)).0

Reached-IsListening_example : IsListening told_once
Reached-IsListening_example =
    Reached-IsListening told_once (asked abroad (registered true (some 4) (pos 20) made))
