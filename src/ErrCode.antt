-- ===== src/ErrCode.antt =====
-- interfaces/inner_api/include/constant_definition.h: the error codes of the service.
use gitee_oh_base_location.Base.{ℕ}

pub data LocationErrCode : Type 0 where
  errcode_success errcode_permission_denied errcode_system_permission_denied : LocationErrCode
  errcode_invalid_param errcode_not_supported errcode_service_unavailable : LocationErrCode
  errcode_switch_off errcode_locating_fail errcode_reverse_geocoding_fail : LocationErrCode
  errcode_geocoding_fail errcode_countrycode_fail errcode_geofence_fail : LocationErrCode
  errcode_no_response : LocationErrCode

-- The number that is written to a reply.
unfoldable pub err_code : LocationErrCode → ℕ
err_code errcode_success = 0
err_code errcode_permission_denied = 201
err_code errcode_system_permission_denied = 202
err_code errcode_invalid_param = 401
err_code errcode_not_supported = 801
err_code errcode_service_unavailable = 3301000
err_code errcode_switch_off = 3301100
err_code errcode_locating_fail = 3301200
err_code errcode_reverse_geocoding_fail = 3301300
err_code errcode_geocoding_fail = 3301400
err_code errcode_countrycode_fail = 3301500
err_code errcode_geofence_fail = 3301600
err_code errcode_no_response = 3301700
