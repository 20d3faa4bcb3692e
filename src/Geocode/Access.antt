-- ===== src/Geocode/Access.antt =====
-- Who may change the geocoding service, and when it is asked to be unloaded.
use gitee_oh_base_location.Base.{
  Bool, arith, false, inl, inr, int_beq_iff, refl, true, ◌&&◌, ◌≡◌, ◌⊎◌,
}
use gitee_oh_base_location.Parcel.{ParcelOps}
use gitee_oh_base_location.Geocode.Service as Stub
use gitee_oh_base_location.Geocode.Service.{
  GeoConvertService, GeoConvertInterfaceCode, Process, GeoEnv, on_remote_request, handle_code,
  is_known, check_calling_permission, unload_geo_convert_system_ability,
  check_if_geo_convert_connecting,
}

module _ {D : Type 0} (o : ParcelOps D) where
  open o use {P}

  handle_code-known :
      (env : GeoEnv D P) (code : GeoConvertInterfaceCode) (message reply : P)
      (s : GeoConvertService D)
      → (is_known code ≡ true) ⊎ ((handle_code o env code message s reply).0.0 ≡ s)
  unfolding handle_code is_known
  handle_code-known env Stub.other_code message reply s = inr refl
  handle_code-known env code message reply s = inl refl

  -- A request that does not begin with the descriptor, or does not come from the process of the hub,
  -- leaves the service as it was. And whatever the request, the service is asked to be unloaded only
  -- while its mock is not enabled.
  pub on_remote_request-keeps :
      (env : GeoEnv D P) (calling : Process) (token : Bool) (code : GeoConvertInterfaceCode)
      (message reply : P) (s : GeoConvertService D)
      → let handled = on_remote_request o env calling token code message s reply in
        ((handled.service ≡ s)
          ⊎ ((token ≡ true) × (calling.uid ≡ env.hub.uid) × (calling.pid ≡ env.hub.pid)))
        × ((handled.unloaded && handled.service.mock_enabled) ≡ false)
  unfolding on_remote_request check_calling_permission unload_geo_convert_system_ability
      check_if_geo_convert_connecting
  on_remote_request-keeps env calling token code message reply s = ground (
    arith,
    handle_code-known env code message reply s,
    int_beq_iff calling.uid env.hub.uid,
    int_beq_iff calling.pid env.hub.pid,
  )
