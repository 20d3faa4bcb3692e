-- ===== src/Request/Proxy.antt =====
-- The abilities that serve a request.
use gitee_oh_base_location.Base.{
  List, String, [], arith, true, ◌∷◌, ◌≡◌, ◌⊎◌, ==→eq, Bool-cases, inl, inr, int_eq, nat_eq,
  string_eq, ◌==◌, ◌∙◌,
}
use gitee_oh_base_location.Location.{is_same, scene_unset}
use gitee_oh_base_location.Location.Config.{is_same_iff}
use gitee_oh_base_location.Request.{
  Request, get_proxy_name, config_proxies, get_proxy_name_by_priority,
}

module _ {D : Type 0} where
  -- Requests that ask for the same are served by the same abilities.
  pub get_proxy_name-is_same :
      (r s : Request D) → is_same r.config s.config ≡ true → get_proxy_name r ≡ get_proxy_name s
  unfolding get_proxy_name config_proxies get_proxy_name_by_priority is_same
  get_proxy_name-is_same r s h =
      let (scenario, priority) = (is_same_iff r.config s.config).0 h in
      elim (Bool-cases (s.config.scenario == scene_unset)) [
        | inl unset ↦
            let same = priority (scenario ∙ ==→eq s.config.scenario scene_unset unset) in
            rw (scenario, same)
        | inr set ↦ rw (scenario, set)
      ]

-- A request has at most the two proxies GNSS and network, or the passive one alone, and none twice.
abbrev pub IsProxies : List String → Type 0
IsProxies ps =
    (ps ≡ [])
    ⊎ ((ps ≡ "gps" ∷ [])
        ⊎ ((ps ≡ "network" ∷ []) ⊎ ((ps ≡ "passive" ∷ []) ⊎ (ps ≡ "gps" ∷ "network" ∷ []))))

pub get_proxy_name_cases : {D : Type 0} (r : Request D) → IsProxies (get_proxy_name r)
unfolding get_proxy_name config_proxies get_proxy_name_by_priority
get_proxy_name_cases r = ground arith
