-- ===== src/GnssAbility/Protocol.antt =====
-- The order of the calls to the driver. The engine is followed from its answers alone, by `replay`,
-- and `none` is a call that the order forbids.
use gitee_oh_base_location.Base.{
  ℕ, List, Option, [], arith, if◌then◌else◌, none, not, refl, some, ◌&&◌, ◌++◌, ◌∷◌, ◌≡◌, Bool,
  Bool-cases, false, inl, inr, suc, true, zero, ◌+◌, ◌∙◌,
}
use gitee_oh_base_location.WorkRecord.{WorkRecord}
use gitee_oh_base_location.SubAbility.{RequestRecord, location_request, handle_refrash_requirements}
use gitee_oh_base_location.GnssAbility.{
  GnssAbility, Hdi, GnssWorkingStatus, gnss_status_none, gnss_status_session_begin,
  gnss_status_session_end, gnss_status_engine_on, gnss_status_engine_off, Call, load_device,
  unload_device, enable_call, disable_call, start_call, stop_call, set_agnss_server_call,
  set_agnss_callback_call, set_subscriber_set_id, set_agnss_ref_info, add_death_recipient, sleep_ms,
  call, enabled_status, in_session, is_gnss_enabled, enable_gnss, disable_gnss, start_gnss,
  stop_gnss, agnss_call, set_agnss_server, set_agnss_callback, set_set_id, set_ref_info,
  connect_rounds, connect_hdi, register_location_hdi_death_recipient, remove_hdi, bring_up,
  add_request, remove_request, request_record, re_connect_hdi, on_remote_died, destroy,
  request_records, send_location_request, refrash_requirements, wait_ms, get_hdi_service_count,
  gnss_service_name, agnss_service_name,
}

-- The engine after a call. A session starts only where GNSS is enabled and no session runs; it ends,
-- the engine is disabled and the AGNSS interface is used only where GNSS is enabled.
abbrev pub after_call : GnssWorkingStatus → Call → Option GnssWorkingStatus
after_call s (enable_call ok) = some (if ok then gnss_status_engine_on else gnss_status_none)
after_call s (disable_call ok) =
    if enabled_status s then some (if ok then gnss_status_engine_off else s) else none
after_call s (start_call ok) =
    if enabled_status s && not (in_session s)
    then some (if ok then gnss_status_session_begin else s)
    else none
after_call s (stop_call ok) =
    if enabled_status s then some (if ok then gnss_status_session_end else s) else none
after_call s (set_agnss_server_call server port) = if enabled_status s then some s else none
after_call s set_agnss_callback_call = if enabled_status s then some s else none
after_call s (set_subscriber_set_id id) = if enabled_status s then some s else none
after_call s (set_agnss_ref_info info) = if enabled_status s then some s else none
after_call s _ = some s

abbrev pub replay : Option GnssWorkingStatus → List Call → Option GnssWorkingStatus
replay s [] = s
replay none (c ∷ cs) = none
replay (some s) (c ∷ cs) = replay (after_call s c) cs

replay-none : (cs : List Call) → replay none cs ≡ none
replay-none [] = refl
replay-none (c ∷ cs) = refl

replay-snoc :
    (s : Option GnssWorkingStatus) (cs : List Call) (t : GnssWorkingStatus) (c : Call)
    → replay s cs ≡ some t
    → replay s (cs ++ c ∷ []) ≡ after_call t c
replay-snoc s [] t c h = rw h refl
replay-snoc none (d ∷ cs) t c h = ground (arith, h)
replay-snoc (some s) (d ∷ cs) t c h = replay-snoc (after_call s d) cs t c h

-- The calls obey the order, and the working status is the one that they lead to.
abbrev pub IsTracked : {D : Type 0} → GnssAbility D → Type 0
IsTracked g = replay (some gnss_status_none) g.calls ≡ some g.gnss_working_status

module _ {D : Type 0} where
  call-replay :
      (g : GnssAbility D) (c : Call)
      → IsTracked g
      → replay (some gnss_status_none) (call g c).calls ≡ after_call g.gnss_working_status c
  unfolding call
  call-replay g c h = replay-snoc (some gnss_status_none) g.calls g.gnss_working_status c h

  pub enable_gnss-IsTracked :
      (hdi : Hdi) (g : GnssAbility D) → IsTracked g → IsTracked (enable_gnss hdi g).0
  unfolding enable_gnss
  enable_gnss-IsTracked hdi g h = ground (arith, h, call-replay g (enable_call hdi.enable_ok) h)

  pub disable_gnss-IsTracked :
      (hdi : Hdi) (g : GnssAbility D) → IsTracked g → IsTracked (disable_gnss hdi g)
  unfolding disable_gnss is_gnss_enabled call
  disable_gnss-IsTracked hdi g h = ground (arith, h, call-replay g (disable_call hdi.disable_ok) h)

  pub start_gnss-IsTracked :
      (hdi : Hdi) (g : GnssAbility D) → IsTracked g → IsTracked (start_gnss hdi g)
  unfolding start_gnss is_gnss_enabled call
  start_gnss-IsTracked hdi g h = ground (arith, h, call-replay g (start_call hdi.start_ok) h)

  pub stop_gnss-IsTracked :
      (hdi : Hdi) (g : GnssAbility D) → IsTracked g → IsTracked (stop_gnss hdi g)
  unfolding stop_gnss is_gnss_enabled call
  stop_gnss-IsTracked hdi g h = ground (arith, h, call-replay g (stop_call hdi.stop_ok) h)

  quiet :
      (g : GnssAbility D) (c : Call)
      → after_call g.gnss_working_status c ≡ some g.gnss_working_status
      → IsTracked g
      → IsTracked (call g c)
  unfolding call
  quiet g c q h = call-replay g c h ∙ q

  agnss_call-IsTracked :
      (b : Bool) (c : Call) (g : GnssAbility D)
      → after_call g.gnss_working_status c
        ≡ (if enabled_status g.gnss_working_status then some g.gnss_working_status else none)
      → IsTracked g
      → IsTracked (agnss_call b c g)
  unfolding agnss_call is_gnss_enabled call
  agnss_call-IsTracked b c g e h = ground (arith, h, e, call-replay g c h)

  set_agnss_server-IsTracked : (g : GnssAbility D) → IsTracked g → IsTracked (set_agnss_server g)
  unfolding set_agnss_server
  set_agnss_server-IsTracked g h = agnss_call-IsTracked _ _ g refl h

  set_agnss_callback-IsTracked :
      (g : GnssAbility D) → IsTracked g → IsTracked (set_agnss_callback g)
  unfolding set_agnss_callback
  set_agnss_callback-IsTracked g h = agnss_call-IsTracked _ _ g refl h

  pub set_set_id-IsTracked :
      (id : ℕ) (g : GnssAbility D) → IsTracked g → IsTracked (set_set_id id g)
  unfolding set_set_id
  set_set_id-IsTracked id g h = agnss_call-IsTracked _ _ g refl h

  pub set_ref_info-IsTracked :
      (info : ℕ) (g : GnssAbility D) → IsTracked g → IsTracked (set_ref_info info g)
  unfolding set_ref_info
  set_ref_info-IsTracked info g h = agnss_call-IsTracked _ _ g refl h

  death-IsTracked :
      (hdi : Hdi) (g : GnssAbility D)
      → IsTracked g
      → IsTracked (register_location_hdi_death_recipient hdi g)
  unfolding register_location_hdi_death_recipient call
  death-IsTracked hdi g h = ground (arith, h, call-replay g add_death_recipient h)

  connect_rounds-IsTracked :
      (hdi : Hdi) (n i : ℕ) (g : GnssAbility D)
      → IsTracked g
      → IsTracked (connect_rounds hdi n i g).0
  unfolding connect_rounds call
  connect_rounds-IsTracked hdi zero i g h = h
  connect_rounds-IsTracked hdi (suc n) i g h =
      let got = record g {
        gnss_interface = (hdi.attempt i).0;
        agnss_interface = (hdi.attempt i).1;
      } in
      let more =
        connect_rounds-IsTracked hdi n (i + 1) (call got (sleep_ms wait_ms))
          (quiet got (sleep_ms wait_ms) refl h) in
      let done =
        death-IsTracked hdi (record got { gnss_callback = true; agnss_callback = true }) h in
      elim (Bool-cases ((hdi.attempt i).0 && (hdi.attempt i).1)) [
        | inl e ↦ rw e done
        | inr e ↦ rw e more
      ]

  connect_hdi-IsTracked :
      (hdi : Hdi) (g : GnssAbility D) → IsTracked g → IsTracked (connect_hdi hdi g).0
  unfolding connect_hdi
  connect_hdi-IsTracked hdi g h =
      let first = call g (load_device gnss_service_name) in
      let second = call first (load_device agnss_service_name) in
      let h₁ : IsTracked first = quiet g (load_device gnss_service_name) refl h in
      let h₂ : IsTracked second = quiet first (load_device agnss_service_name) refl h₁ in
      ground (arith, h, h₁, h₂, connect_rounds-IsTracked hdi get_hdi_service_count 0 second h₂)

  remove_hdi-IsTracked :
      (hdi : Hdi) (g : GnssAbility D) → IsTracked g → IsTracked (remove_hdi hdi g).0
  unfolding remove_hdi
  remove_hdi-IsTracked hdi g h =
      let first = call g (unload_device gnss_service_name) in
      let second = call first (unload_device agnss_service_name) in
      let h₁ : IsTracked first = quiet g (unload_device gnss_service_name) refl h in
      let h₂ : IsTracked second = quiet first (unload_device agnss_service_name) refl h₁ in
      ground (arith, h, h₁, h₂)

  bring_up-IsTracked : (hdi : Hdi) (g : GnssAbility D) → IsTracked g → IsTracked (bring_up hdi g)
  unfolding bring_up
  bring_up-IsTracked hdi g h =
      set_agnss_server-IsTracked _ (
        set_agnss_callback-IsTracked _
          (enable_gnss-IsTracked hdi _ (connect_hdi-IsTracked hdi g h)))

  re_connect_hdi-IsTracked :
      (hdi : Hdi) (g : GnssAbility D) → IsTracked g → IsTracked (re_connect_hdi hdi g)
  unfolding re_connect_hdi
  re_connect_hdi-IsTracked hdi g h =
      ground (arith, h, start_gnss-IsTracked hdi (bring_up hdi g) (bring_up-IsTracked hdi g h))

  pub on_remote_died-IsTracked :
      (hdi : Hdi) (g : GnssAbility D) → IsTracked g → IsTracked (on_remote_died hdi g)
  unfolding on_remote_died
  on_remote_died-IsTracked hdi g h =
      re_connect_hdi-IsTracked hdi _ (quiet g (sleep_ms wait_ms) refl h)

  pub destroy-IsTracked : (hdi : Hdi) (g : GnssAbility D) → IsTracked g → IsTracked (destroy hdi g)
  unfolding destroy
  destroy-IsTracked hdi g h =
      let dropped = record g { gnss_callback = false; agnss_callback = false } in
      let off = disable_gnss-IsTracked hdi dropped h in
      ground (arith, h, remove_hdi-IsTracked hdi (disable_gnss hdi dropped) off)

  add_request-IsTracked :
      (hdi : Hdi) (g : GnssAbility D) → IsTracked g → IsTracked (add_request hdi g)
  unfolding add_request
  add_request-IsTracked hdi g h =
      let up = record (bring_up hdi g) { is_hdi_connected = true } in
      let started = start_gnss-IsTracked hdi up (bring_up-IsTracked hdi g h) in
      ground (arith, started, start_gnss-IsTracked hdi g h)

  remove_request-IsTracked :
      (hdi : Hdi) (g : GnssAbility D) → IsTracked g → IsTracked (remove_request hdi g)
  unfolding remove_request
  remove_request-IsTracked hdi g h =
      let stopped = stop_gnss-IsTracked hdi g h in
      ground (arith, h, stopped, remove_hdi-IsTracked hdi (stop_gnss hdi g) stopped)

  request_record-IsTracked :
      (hdi : Hdi) (r : RequestRecord) (g : GnssAbility D)
      → IsTracked g
      → IsTracked (request_record hdi r g)
  unfolding request_record
  request_record-IsTracked hdi r g h =
      quiet (if r.is_added then add_request hdi g else remove_request hdi g) _ refl
        (elim (Bool-cases r.is_added) [
          | inl e ↦ rw e (add_request-IsTracked hdi g h)
          | inr e ↦ rw e (remove_request-IsTracked hdi g h)
        ])

  pub request_records-IsTracked :
      (hdis : ℕ → Hdi) (n : ℕ) (rs : List RequestRecord) (g : GnssAbility D)
      → IsTracked g
      → IsTracked (request_records hdis n rs g)
  unfolding request_records
  request_records-IsTracked hdis n [] g h = h
  request_records-IsTracked hdis n (r ∷ rs) g h =
      request_records-IsTracked hdis (n + 1) rs (request_record (hdis n) r g)
        (request_record-IsTracked (hdis n) r g h)

  pub send_location_request-IsTracked :
      (hdis : ℕ → Hdi) (g : GnssAbility D) (w : WorkRecord)
      → IsTracked g
      → IsTracked (send_location_request hdis g w)
  unfolding send_location_request
  send_location_request-IsTracked hdis g w h =
      let sub = (location_request g.mock.sub w).0 in
      request_records-IsTracked hdis 0 (location_request g.mock.sub w).1
        (record g { mock = record g.mock { sub = sub } }) h

  pub refrash_requirements-IsTracked :
      (hdis : ℕ → Hdi) (g : GnssAbility D) → IsTracked g → IsTracked (refrash_requirements hdis g)
  unfolding refrash_requirements
  refrash_requirements-IsTracked hdis g h =
      let sub = (handle_refrash_requirements g.mock.sub).0 in
      request_records-IsTracked hdis 0 (handle_refrash_requirements g.mock.sub).1
        (record g { mock = record g.mock { sub = sub } }) h
