-- ===== src/Mock/Tests.antt =====
-- Runs of mocked locations, and the witness of their property.
use gitee_oh_base_location.Base.{
  ℕ, [], length, negsuc, pos, refl, replicate, suc, true, ◌++◌, ◌∷◌, ◌≡◌,
}
use gitee_oh_base_location.ErrCode.{errcode_success}
use gitee_oh_base_location.Samples.{place}
use gitee_oh_base_location.Location.{Location}
use gitee_oh_base_location.SubAbility.{new_sub_ability}
use gitee_oh_base_location.Mock.{Mock, new_mock, to_uint32, set_mocked}
use gitee_oh_base_location.Mock.Run.{run_events, run_events-set_mocked, all_reports, delay}

abbrev mocked_place : ℕ → Location ℕ
mocked_place x = record (place x) { is_from_mock = true }

abbrev mocking : Mock ℕ
unfolding new_mock new_sub_ability
mocking = record new_mock { sub = record new_sub_ability { mock_enabled = true } }

to_uint32-wraps : to_uint32 (negsuc 0) ≡ 4294967295
unfolding to_uint32
to_uint32-wraps = refl

run_events-set_mocked_example :
    let locations = mocked_place 1 ∷ place 2 ∷ mocked_place 3 ∷ [] in
    let (m', code) = set_mocked mocking (pos 2) locations in
    let done = run_events "gps" true (suc (length locations)) m' in
    (code ≡ errcode_success)
    × (done.reports ≡ mocking.reports ++ all_reports "gps" true true locations)
    × (done.events ≡ mocking.events ++ 0 ∷ replicate (length locations) (delay m'))
    × (done.sub.mock_loc ≡ [])
    × (done.mock_location_index ≡ 0)
unfolding mocking
run_events-set_mocked_example =
    run_events-set_mocked "gps" true mocking (pos 2)
      (mocked_place 1 ∷ place 2 ∷ mocked_place 3 ∷ []) refl refl
