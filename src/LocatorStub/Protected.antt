-- ===== src/LocatorStub/Protected.antt =====
-- The switch and the privacy states behind the stub: who can change them.
use gitee_oh_base_location.Base.{
  ℕ, Bool, String, arith, false, none, refl, some, true, ◌≡◌, Bool-cases, inl, inr, ◌&&◌,
}
use gitee_oh_base_location.Parcel.{ParcelOps}
use gitee_oh_base_location.Env.{Env}
use gitee_oh_base_location.Location.{Location}
use gitee_oh_base_location.Request.{Request}
use gitee_oh_base_location.ReportManager.{DoubleOps}
use gitee_oh_base_location.LocatorAbility.{
  LocatorAbility, query_switch_state, prepare, AppIdentity, start_locating, stop_locating,
  report_location_status, proxy_uid_for_freeze, reset_all_proxy, register_switch_callback,
  unregister_switch_callback,
}
use gitee_oh_base_location.ErrCode.{errcode_switch_off}
use gitee_oh_base_location.LocatorAbility.Switch.{
  IsKept, IsKept-trans, IsKept-query, prepare-IsAsked, report_notice-IsAsked,
  query_switch_state-IsAsked,
}
use gitee_oh_base_location.LocatorAbility.Operations.{
  MockMessage, get_switch_state, report_location, process_location_mock_msg, update_proxy_map,
  checked_register_switch_callback, checked_unregister_switch_callback,
}
use gitee_oh_base_location.LocatorStub.{
  Guards, Answer, passed, refused, refused_silently, unsupported, LocatorCall, system_permission,
  settings_permission,
}
use gitee_oh_base_location.LocatorStub as Stub
use gitee_oh_base_location.LocatorStub.Dispatch.{LocatorInterfaceCode, on_remote_request}
use gitee_oh_base_location.LocatorStub.Guarded.{may, on_remote_request-may}
use gitee_oh_base_location.LocatorStub.Run.{Locator, World, guards, run, carry_out, handle_message}

-- The call sets the switch.
abbrev sets_switch : {D P : Type 0} → LocatorCall D P → Bool
sets_switch (Stub.enable_ability is_enabled) = true
sets_switch _ = false

module _ {D : Type 0} where
  switch_value-start :
      (env : Env) (l : LocatorAbility D) (long_ago : Bool) (random : D) (h : ℕ) (r : Request D)
      → IsKept l.switch_value (start_locating env l long_ago random h r).0.switch_value
  unfolding start_locating report_location_status
  switch_value-start env l long_ago random h r =
      let ready = prepare l r.callback long_ago random in
      IsKept-trans l.switch_value ready.switch_value _
        (prepare-IsAsked l r.callback long_ago random).value (report_notice-IsAsked _ _).value

  switch_value-stop :
      (env : Env) (l : LocatorAbility D) (callback : ℕ)
      → IsKept l.switch_value (stop_locating env l callback).0.switch_value
  unfolding stop_locating report_location_status
  switch_value-stop env l callback = (report_notice-IsAsked _ _).value

  switch_value-report :
      (env : Env) (ops : DoubleOps D) (l : LocatorAbility D) (location : Location D) (name : String)
      → IsKept l.switch_value (report_location env ops l location name).0.switch_value
  unfolding report_location
  switch_value-report env ops l location name = ground (arith, (query_switch_state-IsAsked l).value)

  switch_value-mock :
      (env : Env) (message : MockMessage D) (l : LocatorAbility D)
      → (process_location_mock_msg env message l).0.switch_value ≡ l.switch_value
  unfolding process_location_mock_msg update_proxy_map
  switch_value-mock env message l = ground arith

module _ {D P : Type 0} (w : World D) (l : Locator D) where
  switch_value-run :
      (c : LocatorCall D P)
      → sets_switch c ≡ false
      → IsKept l.ability.switch_value (run w l c).0.ability.switch_value
  unfolding run reset_all_proxy proxy_uid_for_freeze checked_register_switch_callback
      checked_unregister_switch_callback register_switch_callback unregister_switch_callback
      get_switch_state
  switch_value-run Stub.get_switch_state h = (query_switch_state-IsAsked l.ability).value
  switch_value-run Stub.reset_all_proxy h = inl refl
  switch_value-run (Stub.register_switch_callback none uid) h = inl refl
  switch_value-run (Stub.register_switch_callback (some client) uid) h = ground arith
  switch_value-run (Stub.unregister_switch_callback none) h = inl refl
  switch_value-run (Stub.unregister_switch_callback (some client)) h = ground arith
  switch_value-run (Stub.start_locating config callback identity) h =
      switch_value-start w.env l.ability w.long_ago w.random w.new_request _
  switch_value-run (Stub.stop_locating callback) h = switch_value-stop w.env l.ability callback
  switch_value-run (Stub.enable_ability is_enabled) h = ground (arith, h)
  switch_value-run (Stub.mock_location message) h = inl (switch_value-mock w.env message l.ability)
  switch_value-run (Stub.unregister_country_code_callback none) h = inl refl
  switch_value-run (Stub.unregister_country_code_callback (some client)) h = inl refl
  switch_value-run (Stub.report_location name location) h =
      switch_value-report w.env w.ops l.ability location name
  switch_value-run c h = inl refl

  switch_value-carry_out :
      (identity : AppIdentity) (a : Answer D P)
      → ((c : LocatorCall D P) → a ≡ passed c → may (guards w l) identity c ≡ true)
      → (system_permission (guards w l) identity && settings_permission (guards w l) identity)
        ≡ false
      → IsKept l.ability.switch_value (carry_out w l a).0.ability.switch_value
  unfolding carry_out
  switch_value-carry_out identity (refused errcode_switch_off) m h =
      (query_switch_state-IsAsked l.ability).value
  switch_value-carry_out identity (refused code) m h = inl refl
  switch_value-carry_out identity (refused_silently code) m h = inl refl
  switch_value-carry_out identity unsupported m h = inl refl
  switch_value-carry_out identity (passed c) m h = elim (Bool-cases (sets_switch c)) [
    | inl sets ↦ absurd (setter c sets (m c refl))
    | inr other ↦ switch_value-run c other
  ]
    where
      setter : (c : LocatorCall D P) → sets_switch c ≡ true → may (guards w l) identity c ≡ true → ⊥
      setter (Stub.enable_ability is_enabled) sets can = ground (arith, can, h)
      setter c sets can = ground (arith, sets)

-- Whatever the code and the contents of a message, unless its sender has both the permission of a
-- system app and the one for secure settings, the stored location switch stays as it is, or it could
-- not be read and is stored as off. In both cases the switch reads as before.
pub switch_value-handle_message :
    {D : Type 0} (o : ParcelOps D) (w : World D) (identity : AppIdentity) (own_token : Bool)
    (code : LocatorInterfaceCode) (p : o.P) (l : Locator D)
    → (system_permission (guards w l) identity && settings_permission (guards w l) identity) ≡ false
    → let l' = (handle_message o w identity own_token code p l).0 in
      IsKept l.ability.switch_value l'.ability.switch_value
      × ((query_switch_state l'.ability).1 ≡ (query_switch_state l.ability).1)
unfolding handle_message
switch_value-handle_message o w identity own_token code p l h =
    let kept =
      switch_value-carry_out w l identity
        (on_remote_request o w.ops.zero_double (guards w l) identity own_token code p)
        (λ c e.
          (on_remote_request-may o w.ops.zero_double (guards w l) identity own_token code p c e).0)
        h in
    let l' = (handle_message o w identity own_token code p l).0 in
    (kept, IsKept-query l.ability l'.ability kept)
