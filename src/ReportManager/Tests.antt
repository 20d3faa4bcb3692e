-- ===== src/ReportManager/Tests.antt =====
-- The witnesses of the properties of the report manager.
use gitee_oh_base_location.Base.{
  ℕ, [], any_by, false, int_eq, ltb, ltb_ℤ, nat_beq, nat_eq, pos, refl, some, string_eq, true, ◌+◌,
  ◌-◌, ◌==◌, ◌∷◌, ◌≡◌, ◌⊎◌,
}
use gitee_oh_base_location.Common.{get_permission_level}
use gitee_oh_base_location.Location.{Location}
use gitee_oh_base_location.Request.{Request, set_last_location}
use gitee_oh_base_location.Samples.{env, service, request, place, navigation}
use gitee_oh_base_location.RequestManager.{find, modify}
use gitee_oh_base_location.ReportManager.{
  DoubleOps, Report, get_permitted_location, process_request_for_report,
}
use gitee_oh_base_location.ReportManager.Permitted.{
  permitted_by, get_permitted_location-get_permission_level,
}
use gitee_oh_base_location.ReportManager.Delivery.{process_request_for_report_lem}

-- Natural numbers in the place of doubles.
abbrev ops : DoubleOps ℕ
ops = record {
  zero_double = 0;
  less = ltb;
  minus = λ x y. x - y;
  double_equal = nat_beq;
  cal_distance = λ a b c d. 3;
  no_latitude = 1000;
  low_latitude = 0;
  max_latitude = 90;
  low_longitude = 0;
  max_longitude = 180;
  approximately_accuracy = 5;
  shift_latitude = λ offset x. x + offset;
  shift_longitude = λ offset x. x + offset;
  round_double = λ x. x;
}

abbrev report : Report ℕ
report = record { last_location = place 1000; offset_random = 2; delivered = [] }

abbrev started : Request ℕ
started = record (request 60 navigation) { is_requesting = true }

find-started : find service 2 ≡ some started
unfolding find
find-started = refl

get_permitted_location-get_permission_level_example :
    get_permitted_location ops env 2 (pos 20) 5 0 (some (place 4))
    ≡ permitted_by ops env 2 (pos 20) 5 0 (place 4) (get_permission_level env.tokens 5 0)
get_permitted_location-get_permission_level_example =
    get_permitted_location-get_permission_level ops env 2 (pos 20) 5 0 (place 4)

process_request_for_report_lem_example :
    (process_request_for_report ops env [] service report (place 4) 2 ≡ (service, (report, false)))
    ⊎ ((l' : Location ℕ) × (get_permitted_location ops env 2 (pos 20) 5 0 (some (place 4))
          ≡ some l')
        × (started.is_requesting ≡ true)
        × (any_by (λ u. u == started.uid) [] ≡ false)
        × (process_request_for_report ops env [] service report (place 4) 2 ≡ (
          modify service 2 (set_last_location started l'),
          (record report { delivered = (60, l') ∷ [] }, ltb_ℤ (pos 0) (pos 0)),
        )))
process_request_for_report_lem_example =
    process_request_for_report_lem ops env [] service report (place 4) 2 started find-started
