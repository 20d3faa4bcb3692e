-- ===== src/CountryCode/Listening.antt =====
-- The events of the SIM card and of the network are listened to exactly while there are callbacks.
use gitee_oh_base_location.Base.{
  ℕ, Bool, List, Option, [], arith, erase, false, int_eq, length, nat_eq, none, not, refl, some,
  string_eq, suc, true, ℤ, ◌&&◌, ◌==◌, ◌∷◌, ◌≡◌, ◌≤◌, String,
}
use gitee_oh_base_location.Registry.{put_callback, drop_callback, insert_key}
use gitee_oh_base_location.CountryCode.{
  CountryCodeManager, Sources, new_manager, subscribe_sim_event, subscribe_network_status_event,
  unsubscribe_sim_event, unsubscribe_network_status_event, register_country_code_callback,
  unregister_country_code_callback, on_location_report, on_receive_event, re_subscribe_event,
  get_iso_country_code, accept_country, find_country_code, get_country_code_by_last_location,
  notify_all_listener, update_country_code, update_country_code_by_location, CountryCode,
  code_by_location, country_code_from_location,
}

-- Both events are listened to if there are callbacks, and neither if there are none; where they are
-- listened to there are subscribers.
pub record IsListening (m : CountryCodeManager) : Type 0 where
  pub sim : m.sim_events ≡ not (length m.country_code_callbacks == 0)
  pub network : m.network_events ≡ not (length m.country_code_callbacks == 0)
  pub sim_object : (m.sim_events && not m.sim_subscriber) ≡ false
  pub network_object : (m.network_events && not m.network_subscriber) ≡ false

length-insert_key :
    (uid : ℤ) (callback : ℕ) (xs : List (ℤ × ℕ))
    → length (insert_key uid callback xs) ≡ suc (length xs)
unfolding insert_key
length-insert_key uid callback [] = refl
length-insert_key uid callback (x ∷ xs) = ground (arith, length-insert_key uid callback xs)

length-erase : (uid : ℤ) (xs : List (ℤ × ℕ)) → length (erase uid xs) ≤ length xs
length-erase uid [] = omega arith
length-erase uid ((j, c) ∷ xs) = ground (arith, length-erase uid xs)

length-put_callback :
    (callback : ℕ) (uid : ℤ) (xs : List (ℤ × ℕ))
    → length (put_callback callback uid xs) ≡ suc (length (erase uid xs))
unfolding put_callback
length-put_callback callback uid xs = length-insert_key uid callback (erase uid xs)

length-drop_callback :
    (callback : ℕ) (xs : List (ℤ × ℕ)) → length (drop_callback callback xs) ≤ length xs
unfolding drop_callback
length-drop_callback callback xs = length-erase _ xs

register-IsListening :
    (is_cast : Bool) (callback : Option ℕ) (uid : ℤ) (m : CountryCodeManager)
    → IsListening m
    → IsListening (register_country_code_callback true is_cast callback uid m)
unfolding register_country_code_callback subscribe_sim_event subscribe_network_status_event
register-IsListening is_cast none uid m v = v
register-IsListening is_cast (some callback) uid m v = ground (
  arith,
  v,
  length-put_callback callback uid m.country_code_callbacks,
  length-erase uid m.country_code_callbacks,
)

unregister-IsListening :
    (is_cast : Bool) (callback : Option ℕ) (m : CountryCodeManager)
    → IsListening m
    → IsListening (unregister_country_code_callback is_cast callback m)
unfolding unregister_country_code_callback unsubscribe_sim_event unsubscribe_network_status_event
unregister-IsListening is_cast none m v = v
unregister-IsListening is_cast (some callback) m v =
    ground (arith, v, length-drop_callback callback m.country_code_callbacks)

accept_country-IsListening :
    (country : CountryCode) (m : CountryCodeManager)
    → IsListening m
    → IsListening (accept_country country m)
unfolding accept_country update_country_code notify_all_listener
accept_country-IsListening country m v = ground (arith, v)

find_country_code-IsListening :
    (sources : Sources) (m : CountryCodeManager)
    → IsListening m
    → IsListening (find_country_code sources m).0
unfolding find_country_code get_country_code_by_last_location
find_country_code-IsListening sources m v = ground (arith, v)

receive-IsListening :
    (sources : Sources) (m : CountryCodeManager)
    → IsListening m
    → IsListening (get_iso_country_code sources m).0
unfolding get_iso_country_code
receive-IsListening sources m v =
    accept_country-IsListening (find_country_code sources m).1 (find_country_code sources m).0
      (find_country_code-IsListening sources m v)

update-IsListening :
    (code : String) (type : ℤ) (m : CountryCodeManager)
    → IsListening m
    → IsListening (update_country_code_by_location code type m).0
unfolding update_country_code_by_location
update-IsListening code type m v = ground (arith, v)

located-IsListening :
    (sources : Sources) (m : CountryCodeManager)
    → IsListening m
    → IsListening (on_location_report sources m)
unfolding on_location_report
located-IsListening sources m v =
    let m' = (update_country_code_by_location code_by_location country_code_from_location m).0 in
    let v' = update-IsListening code_by_location country_code_from_location m v in
    ground (arith, v', receive-IsListening sources m' v')

re_subscribe-IsListening :
    (m : CountryCodeManager) → IsListening m → IsListening (re_subscribe_event true m)
unfolding re_subscribe_event subscribe_sim_event subscribe_network_status_event
re_subscribe-IsListening m v = ground (arith, v)

-- The states of the manager while the event service runs and takes every subscription.
pub data Reached : CountryCodeManager → Type 0 where
  made : Reached new_manager
  registered :
      (is_cast : Bool) (callback : Option ℕ) (uid : ℤ) {m : CountryCodeManager}
      → Reached m
      → Reached (register_country_code_callback true is_cast callback uid m)
  unregistered :
      (is_cast : Bool) (callback : Option ℕ) {m : CountryCodeManager}
      → Reached m
      → Reached (unregister_country_code_callback is_cast callback m)
  asked :
      (sources : Sources) {m : CountryCodeManager}
      → Reached m
      → Reached (get_iso_country_code sources m).0
  received :
      (sources : Sources) {m : CountryCodeManager}
      → Reached m
      → Reached (on_receive_event sources m)
  located :
      (sources : Sources) {m : CountryCodeManager}
      → Reached m
      → Reached (on_location_report sources m)
  re_subscribed : {m : CountryCodeManager} → Reached m → Reached (re_subscribe_event true m)

-- While the event service runs and takes every subscription, the manager listens to the events of the
-- SIM card and of the network exactly while some callback is registered.
pub Reached-IsListening : (m : CountryCodeManager) → Reached m → IsListening m
unfolding new_manager on_receive_event
Reached-IsListening _ made = record {
  sim = refl;
  network = refl;
  sim_object = refl;
  network_object = refl;
}
Reached-IsListening _ (registered is_cast callback uid r) =
    register-IsListening is_cast callback uid _ (Reached-IsListening _ r)
Reached-IsListening _ (unregistered is_cast callback r) =
    unregister-IsListening is_cast callback _ (Reached-IsListening _ r)
Reached-IsListening _ (asked sources r) = receive-IsListening sources _ (Reached-IsListening _ r)
Reached-IsListening _ (received sources r) = receive-IsListening sources _ (Reached-IsListening _ r)
Reached-IsListening _ (located sources r) = located-IsListening sources _ (Reached-IsListening _ r)
Reached-IsListening _ (re_subscribed r) = re_subscribe-IsListening _ (Reached-IsListening _ r)
