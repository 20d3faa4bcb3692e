-- ===== src/NetworkAbility/Tests.antt =====
-- Runs of the network ability, and the witnesses of its properties.
use gitee_oh_base_location.Base.{
  ℕ, [], false, if◌then◌else◌, ltb, map, none, pos, refl, some, true, ◌++◌, ◌∷◌, ◌≡◌, arith, inl,
}
use gitee_oh_base_location.Lifecycle.{new_lifecycle}
use gitee_oh_base_location.WorkRecord.{WorkRecord, new_record}
use gitee_oh_base_location.WorkRecord.Columns.{Row, columns, columns-IsValid, rows}
use gitee_oh_base_location.SubAbility.{new_sub_ability}
use gitee_oh_base_location.SubAbility.Request.{IsSettled}
use gitee_oh_base_location.SubAbility.Difference.{IsAligned, missing_from}
use gitee_oh_base_location.Mock.{new_mock}
use gitee_oh_base_location.NetworkAbility.{
  NetworkAbility, new_network_ability, Nlp, re_connect_nlp_service, send_location_request,
  usable_name, max_retry_count,
}
use gitee_oh_base_location.NetworkAbility.Connect.{
  has_name, first_attempt, connected_by, re_connect_nlp_service_lem,
}
use gitee_oh_base_location.NetworkAbility.Requests.{
  AreShort, removal, start, send_location_request-sends, send_location_request_lost,
}

-- The third attempt connects.
abbrev nlp : Nlp
nlp = record {
  service_name = some "nlp";
  installed = λ name. true;
  attempt = λ k. record { accepted = ltb 1 k; done_in_time = true; remote_object = true };
}

abbrev no_nlp : Nlp
no_nlp = record nlp { service_name = none }

abbrev maps : Row
maps = record { uid = pos 20; pid = pos 7; name = "maps"; interval = pos 5; uuid = "a" }

abbrev asked : WorkRecord
asked = columns "" (maps ∷ [])

abbrev idle : NetworkAbility ℕ
unfolding new_network_ability new_mock new_sub_ability new_record new_lifecycle
idle = new_network_ability

abbrev ready : NetworkAbility ℕ
ready = record idle { nlp_service_ready = true; nlp_service_proxy = true }

idle-IsSettled : IsSettled idle.mock.sub
unfolding idle
idle-IsSettled = record {
  last_valid = columns-IsValid "" [];
  new_valid = columns-IsValid "" [];
  last_id = refl;
  new_id = refl;
}

re_connect_nlp_service_lem_example : re_connect_nlp_service nlp idle ≡ (
    if idle.nlp_service_ready
    then (idle, true)
    else if has_name nlp
    then connected_by nlp (first_attempt nlp max_retry_count 0) idle
    else (idle, false))
re_connect_nlp_service_lem_example = re_connect_nlp_service_lem nlp idle

short : AreShort (rows asked)
unfolding rows
short = ((5, refl, omega arith), tt)

aligned : IsAligned (rows ready.mock.sub.last_record) 0 (rows asked)
unfolding idle rows
aligned = (inl tt, tt)

send_location_request-sends_example :
    let a' = send_location_request (λ n. nlp) ready asked in
    (a'.sent
      ≡ ready.sent
        ++ (map removal (missing_from (rows asked) (rows ready.mock.sub.last_record))
            ++ map start (missing_from (rows ready.mock.sub.last_record) (rows asked))))
    × (rows a'.mock.sub.last_record ≡ rows asked)
    × IsSettled a'.mock.sub
    × (a'.nlp_service_ready ≡ true)
    × (a'.nlp_service_proxy ≡ true)
send_location_request-sends_example =
    send_location_request-sends (λ n. nlp) ready asked refl refl idle-IsSettled
      (columns-IsValid "" (maps ∷ [])) aligned short

send_location_request_lost_example :
    (send_location_request (λ n. nlp) (send_location_request (λ n. no_nlp) idle asked) asked).sent
    ≡ idle.sent
unfolding idle usable_name
send_location_request_lost_example =
    send_location_request_lost (λ n. no_nlp) (λ n. nlp) idle asked refl (λ k. refl) idle-IsSettled
      (columns-IsValid "" (maps ∷ []))
