-- ===== src/NetworkAbility.antt =====
-- services/location_network/network/source/network_ability.cpp: the network ability, which hands the
-- requests to a location service of another vendor (NLP). That service, the ability manager and the
-- configuration file that names the service are not part of the model: an `Nlp` holds what they answer
-- while one call runs. `sent` holds the messages that were sent to the service.
pub mod Messages
pub mod Connect
pub mod Requests
mod Tests
use gitee_oh_base_location.Base.{
  ℕ, Bool, List, Option, String, [], false, if◌then◌else◌, int_eq, nat_eq, none, not, pos, some,
  string_eq, suc, times, true, zero, ℤ, ◌++◌, ◌+◌, ◌==◌, ◌∷◌, wrap_int32,
}
use gitee_oh_base_location.Lifecycle.{Lifecycle, new_lifecycle}
use gitee_oh_base_location.WorkRecord.{WorkRecord, get_time_interval, get_uuid}
use gitee_oh_base_location.SubAbility.{RequestRecord, location_request, handle_self_request}
use gitee_oh_base_location.Mock.{Mock, new_mock}

pub data NlpMessage : Type 0 where
  request_network_location : (uuid : String) (interval : ℤ) → NlpMessage
  remove_network_location : (uuid : String) → NlpMessage

pub record NetworkAbility (D : Type 0) : Type 0 where
  pub mock : Mock D
  pub lifecycle : Lifecycle
  pub nlp_service_ready : Bool
  -- Whether the pointer is not null.
  pub nlp_service_proxy : Bool
  pub sent : List NlpMessage

-- One call of `ConnectAbility`: whether it is accepted, whether `OnAbilityConnectDone` comes with
-- ERR_OK before the timeout, and whether its remote object is not null.
pub record ConnectAttempt : Type 0 where
  pub accepted : Bool
  pub done_in_time : Bool
  pub remote_object : Bool

pub record Nlp : Type 0 where
  -- GetNlpServiceName; `none` where it fails.
  pub service_name : Option String
  pub installed : String → Bool
  -- The calls of `ConnectAbility`, in the order of the attempts.
  pub attempt : ℕ → ConnectAttempt

abbrev pub max_retry_count : ℕ
max_retry_count = 5

abbrev pub sec_to_milli_sec : ℕ
sec_to_milli_sec = 1000

-- The name, where there is one and it is not empty.
unfoldable pub usable_name : Nlp → Option String
usable_name nlp = elim nlp.service_name [
  | none ↦ none
  | some name ↦ if name == "" then none else some name
]

-- The message of a call of RequestRecord. The product is an `int`: where the interval is more than
-- 2147483 seconds it overflows, which C++ leaves undefined, and is taken to wrap around.
unfoldable pub nlp_message : RequestRecord → NlpMessage
nlp_message r =
    if r.is_added
    then (request_network_location (get_uuid r.work_record (pos 0))
        (wrap_int32 (times (get_time_interval r.work_record (pos 0)) sec_to_milli_sec)))
    else remove_network_location (get_uuid r.work_record (pos 0))

module _ {D : Type 0} where
  unfoldable pub new_network_ability : NetworkAbility D
  new_network_ability = record {
    mock = new_mock;
    lifecycle = new_lifecycle;
    nlp_service_ready = false;
    nlp_service_proxy = false;
    sent = [];
  }

  unfoldable pub notify_connected : Bool → NetworkAbility D → NetworkAbility D
  notify_connected remote_object a = record a {
    nlp_service_ready = true;
    nlp_service_proxy = remote_object;
  }

  unfoldable pub notify_dis_connected : NetworkAbility D → NetworkAbility D
  notify_dis_connected a = record a { nlp_service_ready = false; nlp_service_proxy = false }

  -- The attempt `k`.
  unfoldable pub connect_nlp_service : Nlp → ℕ → NetworkAbility D → NetworkAbility D × Bool
  connect_nlp_service nlp k a =
      if not a.nlp_service_ready
      then (elim (usable_name nlp) [
        | none ↦ (a, false)
        | some name ↦
            if not (nlp.attempt k).accepted
            then (a, false)
            else if not (nlp.attempt k).done_in_time
            then (a, false)
            else (notify_connected (nlp.attempt k).remote_object a, true)
      ])
      else (a, true)

  -- Rounds of the loop, from the attempt `k`.
  unfoldable pub re_connect_rounds : Nlp → ℕ → ℕ → NetworkAbility D → NetworkAbility D × Bool
  re_connect_rounds nlp zero k a = (a, false)
  re_connect_rounds nlp (suc rounds) k a =
      let (a', ret) = connect_nlp_service nlp k a in
      let rest = re_connect_rounds nlp rounds (k + 1) a' in if ret then (a', true) else rest

  unfoldable pub re_connect_nlp_service : Nlp → NetworkAbility D → NetworkAbility D × Bool
  re_connect_nlp_service nlp a =
      if a.nlp_service_ready then (a, true) else re_connect_rounds nlp max_retry_count 0 a

  -- What stands before the message in RequestRecord: the state, and whether it goes on.
  unfoldable pub ensure_service : Nlp → NetworkAbility D → NetworkAbility D × Bool
  ensure_service nlp a =
      if not a.nlp_service_ready
      then (elim (usable_name nlp) [
        | none ↦ (a, false)
        | some name ↦ if not (nlp.installed name) then (a, false) else re_connect_nlp_service nlp a
      ])
      else (a, true)

  unfoldable pub request_record : Nlp → RequestRecord → NetworkAbility D → NetworkAbility D
  request_record nlp r a =
      let (a', ready) = ensure_service nlp a in
      if not ready
      then a'
      else if not a'.nlp_service_proxy
      then a'
      else record a' { sent = a'.sent ++ nlp_message r ∷ [] }

  -- The calls of `RequestRecord`, in their order; call `n` meets the answers `nlps n`.
  unfoldable pub request_records :
      (ℕ → Nlp) → ℕ → List RequestRecord → NetworkAbility D → NetworkAbility D
  request_records nlps n [] a = a
  request_records nlps n (r ∷ rs) a = request_records nlps (n + 1) rs (request_record (nlps n) r a)

  unfoldable pub send_location_request :
      (ℕ → Nlp) → NetworkAbility D → WorkRecord → NetworkAbility D
  send_location_request nlps a workrecord =
      let (sub, records) = location_request a.mock.sub workrecord in
      request_records nlps 0 records (record a { mock = record a.mock { sub = sub } })

  -- `uuid` is the random number that is drawn, as text.
  unfoldable pub self_request :
      (ℕ → Nlp) → NetworkAbility D → ℤ → ℤ → Bool → String → NetworkAbility D
  self_request nlps a pid uid state uuid =
      let (sub, records) = handle_self_request a.mock.sub pid uid state uuid in
      request_records nlps 0 records (record a { mock = record a.mock { sub = sub } })
