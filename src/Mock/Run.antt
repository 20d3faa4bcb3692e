-- ===== src/Mock/Run.antt =====
-- A whole run of the mocked locations: the report events, one after the other, until the handler
-- sends itself no more.
use gitee_oh_base_location.Base.{
  ℕ, Bool, List, String, [], if◌then◌else◌, int_eq, length, nat_eq, none, refl, some, string_eq,
  suc, zero, ◌++◌, ◌∷◌, ◌≡◌, append-nil, append_assoc, arith, length-snoc, not, snoc_append, ◌%◌,
  ◌*◌, ◌+◌, ◌^◌, ap, true, ℤ, ◌∙◌, replicate,
}
use gitee_oh_base_location.Common.{passive_ability}
use gitee_oh_base_location.Location.{Location}
use gitee_oh_base_location.SubAbility.{
  clear_location_mock, set_mocked_locations, cache_location_mock,
}
use gitee_oh_base_location.ErrCode.{errcode_success}
use gitee_oh_base_location.Mock.{
  Mock, at_position, report_mocked_location, process_report_location_mock, set_mocked, to_uint32,
  event_interval_unite, send_report_mock_location_event,
}

module _ {D : Type 0} (ability : String) (passive : Bool) where
  -- What one location comes to at the locator, while mocking is enabled or not.
  abbrev pub reports_of : Bool → Location D → List (String × Location D)
  reports_of mocked location =
      if (if mocked then location.is_from_mock else not location.is_from_mock)
      then (ability, location) ∷ (if passive then (passive_ability, location) ∷ [] else [])
      else []

  abbrev pub all_reports : Bool → List (Location D) → List (String × Location D)
  all_reports mocked [] = []
  all_reports mocked (x ∷ xs) = reports_of mocked x ++ all_reports mocked xs

  -- The handler runs `n` report events.
  abbrev pub run_events : ℕ → Mock D → Mock D
  run_events zero m = m
  run_events (suc n) m = run_events n (process_report_location_mock ability passive m)

module _ {D : Type 0} where
  at_position-middle :
      (pre : List (Location D)) (x : Location D) (post : List (Location D))
      → at_position (pre ++ x ∷ post) (length pre) ≡ some x
  unfolding at_position
  at_position-middle [] x post = refl
  at_position-middle (y ∷ pre) x post = at_position-middle pre x post

  at_position-end : (xs : List (Location D)) → at_position xs (length xs) ≡ none
  unfolding at_position
  at_position-end [] = refl
  at_position-end (x ∷ xs) = at_position-end xs

-- The delay of each event that follows a report.
abbrev pub delay : {D : Type 0} → Mock D → ℕ
delay m = to_uint32 m.sub.mock_time_interval * event_interval_unite % 2 ^ 32

module _ {D : Type 0} (ability : String) (passive : Bool) (m : Mock D) where
  -- `m` with these locations, the next one, and what has been reported and sent.
  abbrev at : List (Location D) → ℕ → List (String × Location D) → List ℕ → Mock D
  at locs i reports events = record m {
    sub = record m.sub { mock_loc = locs };
    mock_location_index = i;
    reports = reports;
    events = events;
  }

  process-more :
      (pre : List (Location D)) (x : Location D) (post : List (Location D))
      (reports : List (String × Location D)) (events : List ℕ)
      → process_report_location_mock ability passive
          (at (pre ++ x ∷ post) (length pre) reports events)
        ≡ at
            (pre ++ x ∷ post)
            (length pre + 1)
            (reports ++ reports_of ability passive m.sub.mock_enabled x)
            (events ++ delay m ∷ [])
  unfolding process_report_location_mock report_mocked_location
  process-more pre x post reports events =
      rw (process_report_location_mock, at_position-middle pre x post)
        (ground (arith, append-nil reports))

  process-done :
      (locs : List (Location D)) (reports : List (String × Location D)) (events : List ℕ)
      → process_report_location_mock ability passive (at locs (length locs) reports events)
        ≡ at [] 0 reports events
  unfolding process_report_location_mock clear_location_mock
  process-done locs reports events = rw (process_report_location_mock, at_position-end locs) refl

  run-rest :
      (pre post : List (Location D)) (reports : List (String × Location D)) (events : List ℕ)
      → run_events ability passive
          (suc (length post))
          (at (pre ++ post) (length pre) reports events)
        ≡ at [] 0
            (reports ++ all_reports ability passive m.sub.mock_enabled post)
            (events ++ replicate (length post) (delay m))
  run-rest pre [] reports events =
      rw (append-nil pre, process-done pre reports events, append-nil reports, append-nil events)
        refl
  run-rest pre (x ∷ post) reports events =
      let rs = reports ++ reports_of ability passive m.sub.mock_enabled x in
      let es = events ++ delay m ∷ [] in
      ap (run_events ability passive (suc (length post))) (process-more pre x post reports events)
      ∙ rw (length-snoc pre x, ← snoc_append pre x post) refl
      ∙ run-rest (pre ++ x ∷ []) post rs es
      ∙ rw (append_assoc, append_assoc) refl

-- The state that a successful setting leaves, but for its locations and events.
abbrev timed : {D : Type 0} → Mock D → ℤ → Mock D
timed m time_interval = record m { sub = record m.sub { mock_time_interval = time_interval } }

set_mocked-enabled :
    {D : Type 0} (ability : String) (passive : Bool) (m : Mock D) (time_interval : ℤ)
    (locations : List (Location D))
    → m.sub.mock_enabled ≡ true
    → m.mock_location_index ≡ 0
    → set_mocked m time_interval locations ≡ (
      at ability passive (timed m time_interval) locations 0 m.reports (m.events ++ 0 ∷ []),
      errcode_success,
    )
unfolding set_mocked set_mocked_locations cache_location_mock clear_location_mock
    send_report_mock_location_event
set_mocked-enabled ability passive m time_interval locations on start = ground (arith, on, start)

-- Where mocking is enabled and no earlier run is under way, the locations that are set are reported
-- one by one in their order, each that is from a mock once to the ability and, where there is one, to
-- the passive ability; the event that the setting sends is the first of as many more as there are
-- locations, and after the last of them there is no mocked location left and no event is sent.
pub run_events-set_mocked :
    {D : Type 0} (ability : String) (passive : Bool) (m : Mock D) (time_interval : ℤ)
    (locations : List (Location D))
    → m.sub.mock_enabled ≡ true
    → m.mock_location_index ≡ 0
    → let (m', code) = set_mocked m time_interval locations in
      let done = run_events ability passive (suc (length locations)) m' in
      (code ≡ errcode_success)
      × (done.reports ≡ m.reports ++ all_reports ability passive true locations)
      × (done.events ≡ m.events ++ 0 ∷ replicate (length locations) (delay m'))
      × (done.sub.mock_loc ≡ [])
      × (done.mock_location_index ≡ 0)
run_events-set_mocked ability passive m time_interval locations on start =
    rw
      (
        set_mocked-enabled ability passive m time_interval locations on start,
        run-rest ability passive (timed m time_interval) [] locations m.reports
            (m.events ++ 0 ∷ []),
        on,
        snoc_append m.events 0 (replicate (length locations) (delay (timed m time_interval))),
      )
      (refl, refl, refl, refl, refl)
