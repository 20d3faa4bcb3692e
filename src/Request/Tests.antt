-- ===== src/Request/Tests.antt =====
-- The witnesses of the properties of requests.
use gitee_oh_base_location.Base.{pos, refl, true, ◌≡◌}
use gitee_oh_base_location.Location.{is_same}
use gitee_oh_base_location.Samples.{request, fast_fix, navigation}
use gitee_oh_base_location.Request.{get_proxy_name}
use gitee_oh_base_location.Request.Proxy.{IsProxies, get_proxy_name_cases}

same_fast_fix : is_same fast_fix (record fast_fix { time_interval = pos 9 }) ≡ true
unfolding is_same
same_fast_fix = refl

get_proxy_name_cases_example : IsProxies (get_proxy_name (request 50 navigation))
get_proxy_name_cases_example = get_proxy_name_cases (request 50 navigation)
