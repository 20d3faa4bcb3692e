-- ===== src/ReportManager.antt =====
-- services/location_locator/locator/source/report_manager.cpp: which location goes to which request.
-- `D` stands for `double` and `float`, with the arithmetic that the code uses as a record.
mod Tests
pub mod Permitted
pub mod Delivery
use gitee_oh_base_location.Base.{
  ℕ, Bool, List, Option, any_by, false, if◌then◌else◌, int_eq, ltb_ℤ, nat_eq, none, not, pos, quot,
  some, string_eq, times, true, ℤ, ◌&&◌, ◌-ℤ◌, ◌==◌, ◌||◌, String, [], lookup, ◌++◌, ◌∷◌,
  wrap_int32,
}
use gitee_oh_base_location.Common.{
  PermissionLevel, permission_accurate, permission_approximately, permission_invalid,
  check_location_permission, check_approximately_permission, check_background_permission,
  get_permission_level,
}
use gitee_oh_base_location.Env.{Env, is_app_background}
use gitee_oh_base_location.Location.{Location}
use gitee_oh_base_location.Request.{Request, copy_location, set_last_location}
use gitee_oh_base_location.Fusion.{fuse_result}
use gitee_oh_base_location.RequestManager.{
  Service, apply_requests, find, modify, act, update_request_record,
}
use gitee_oh_base_location.RequestManager.Handlers.{quick_fix}

pub record DoubleOps (D : Type 0) : Type 0 where
  pub zero_double : D
  pub less : D → D → Bool
  pub minus : D → D → D
  -- `CommonUtils::DoubleEqual` and `CalDistance`
  pub double_equal : D → D → Bool
  pub cal_distance : D → D → D → D → D
  -- MIN_LATITUDE - 1, ±MAX_LATITUDE, ±MAX_LONGITUDE and DEFAULT_APPROXIMATELY_ACCURACY
  pub no_latitude : D
  pub low_latitude : D
  pub max_latitude : D
  pub low_longitude : D
  pub max_longitude : D
  pub approximately_accuracy : D
  -- The point that `offsetRandom_` moves a latitude or a longitude to, and the cut to 8 decimals.
  pub shift_latitude : D → D → D
  pub shift_longitude : D → D → D
  pub round_double : D → D

pub record Report (D : Type 0) : Type 0 where
  pub last_location : Location D
  pub offset_random : D
  pub delivered : List (ℕ × Location D)

-- The name of an app, or the empty one that `GetBundleNameByUid` leaves where it fails.
unfoldable pub get_bundle_name : Env → ℤ → String
get_bundle_name env uid = elim (env.bundle_name uid) [ none ↦ "" | some name ↦ name ]

module _ {D : Type 0} (ops : DoubleOps D) where
  unfoldable pub clamp : D → D → D → D
  clamp low high x =
      if ops.less x low then low else if ops.less high x then high else ops.round_double x

  unfoldable pub approximately_location : D → Location D → Location D
  approximately_location offset l = record l {
    latitude = clamp ops.low_latitude ops.max_latitude (ops.shift_latitude offset l.latitude);
    longitude = clamp ops.low_longitude ops.max_longitude (ops.shift_longitude offset l.longitude);
    accuracy = ops.approximately_accuracy;
  }

  unfoldable pub get_permitted_location :
      Env → D → ℤ → ℕ → ℕ → Option (Location D) → Option (Location D)
  get_permitted_location env offset uid token first none = none
  get_permitted_location env offset uid token first (some l) =
      let bundle_name = get_bundle_name env uid in
      let precise = check_location_permission env.tokens token first in
      let approximate = check_approximately_permission env.tokens token first in
      if not precise && approximate
      then some (approximately_location offset l)
      else if (not precise && not approximate)
          || (is_app_background env bundle_name
              && not (check_background_permission env.tokens token first))
      then none
      else some l

  abbrev pub is_accurate : PermissionLevel → Bool
  is_accurate permission_accurate = true
  is_accurate permission_approximately = false
  is_accurate permission_invalid = false

  -- The end of `ResultCheck`: against the last location that the request has been given. The least
  -- time is computed in `int`, and taken to wrap around.
  unfoldable pub interval_check : Location D → Request D → Bool
  interval_check l r =
      let delta_ms = quot (l.time_since_boot -ℤ r.last_location.time_since_boot) 1000000 in
      if ltb_ℤ delta_ms (wrap_int32 (wrap_int32 (times r.config.time_interval 1000) -ℤ pos 200))
      then false
      else not (
          ops.less
            (ops.minus
              (ops.cal_distance l.latitude l.longitude r.last_location.latitude
                r.last_location.longitude)
              r.config.distance_interval)
            ops.zero_double)

  -- `proxy_uids` are the uids that LocatorAbility::IsProxyUid finds.
  unfoldable pub result_check : Env → List ℤ → Option (Location D) → Request D → Bool
  result_check env proxy_uids none r = false
  result_check env proxy_uids (some l) r =
      if any_by (λ u. u == r.uid) proxy_uids
      then false
      else if is_accurate (get_permission_level env.tokens r.token_id r.first_token_id)
          && (ops.less ops.zero_double r.config.max_accuracy
              && ops.less r.config.max_accuracy l.accuracy)
      then false
      else if ops.double_equal r.last_location.latitude ops.no_latitude
      then true
      else interval_check l r

  -- A checked location goes to the request and to its callback. The Boolean says that the request
  -- asked for a fixed number of fixes: it is dead.
  unfoldable pub deliver :
      Service D
      → Report D
      → ℕ
      → Request D
      → Option (Location D)
      → Bool
      → Service D × (Report D × Bool)
  deliver s p h r none checked = (s, (p, false))
  deliver s p h r (some l) checked = if not checked then (s, (p, false)) else (
    modify s h (set_last_location r l),
    (
      record p { delivered = p.delivered ++ (r.callback, l) ∷ [] },
      ltb_ℤ (pos 0) r.config.fix_number,
    ),
  )

  -- `ProcessRequestForReport`, for a request of the store: what it is given, and whether it is done.
  unfoldable pub process_request_for_report :
      Env → List ℤ → Service D → Report D → Location D → ℕ → Service D × (Report D × Bool)
  process_request_for_report env proxy_uids s p l h = elim (find s h) [
    | none ↦ (s, (p, false))
    | some r ↦
        if not r.is_requesting
        then (s, (p, false))
        else deliver s p h r
            (get_permitted_location env p.offset_random r.uid r.token_id r.first_token_id (some l))
            (result_check env proxy_uids
              (get_permitted_location env p.offset_random r.uid r.token_id r.first_token_id
                (some l))
              r)
  ]

  unfoldable pub process_requests :
      Env → List ℤ → Location D → List ℕ → Service D → Report D → Service D × (Report D × List ℕ)
  process_requests env proxy_uids l [] s p = (s, (p, []))
  process_requests env proxy_uids l (h ∷ hs) s p =
      let (s', (p', dead)) = process_request_for_report env proxy_uids s p l h in
      let (s'', (p'', deads)) = process_requests env proxy_uids l hs s' p' in
      (s'', (p'', if dead then h ∷ deads else deads))

  unfoldable pub remove_requests : List ℕ → Service D → Service D
  remove_requests [] s = s
  remove_requests (h ∷ hs) s = remove_requests hs (update_request_record s h false)

  unfoldable pub on_report_location :
      Env → List ℤ → Service D → Report D → Location D → String → Service D × (Report D × Bool)
  on_report_location env proxy_uids s p l ability_name =
      let fused = quick_fix s (fuse_result ability_name) in
      let p' = record p { last_location = copy_location p.last_location l } in
      elim (lookup ability_name fused.requests) [
        | none ↦ (fused, (p', false))
        | some hs ↦
            let (s', (p'', deads)) = process_requests env proxy_uids l hs fused p' in
            (act (remove_requests deads s') apply_requests, (p'', true))
      ]

  unfoldable pub get_last_location : Report D → Option (Location D)
  get_last_location p =
      if ops.double_equal p.last_location.latitude ops.no_latitude
      then none
      else some p.last_location
