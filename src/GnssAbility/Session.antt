-- ===== src/GnssAbility/Session.antt =====
-- With a driver that answers, a session runs exactly while there are requests.
use gitee_oh_base_location.Base.{
  ℕ, Bool, arith, false, int_eq, nat_eq, string_eq, true, ◌&&◌, ◌<◌, ◌==◌, ◌≡◌, ap, refl, ◌∙◌, List,
  [], map, not, ◌+◌, ◌∷◌, append-nil, sym, subst, if◌then◌else◌,
}
use gitee_oh_base_location.WorkRecord.{WorkRecord, size, is_empty}
use gitee_oh_base_location.WorkRecord.Columns.{Row, columns, rows, IsValid}
use gitee_oh_base_location.SubAbility.{RequestRecord, get_request_num, location_request}
use gitee_oh_base_location.SubAbility.Announce.{announce}
use gitee_oh_base_location.SubAbility.Empty.{arrivals-first, departures-all, no_rows, is_empty-rows}
use gitee_oh_base_location.SubAbility.Request.{IsSettled, announcements, location_request_lem}
use gitee_oh_base_location.Mock.{Mock}
use gitee_oh_base_location.GnssAbility.{
  GnssAbility, Hdi, Call, call, in_session, enabled_status, is_gnss_enabled, enable_gnss,
  start_gnss, stop_gnss, agnss_call, set_agnss_server, set_agnss_callback, bring_up, connect_hdi,
  remove_hdi, add_request, remove_request, request_record, request_records, send_location_request,
  get_hdi_service_count,
}
use gitee_oh_base_location.GnssAbility.Connect.{
  connect_hdi-IsConnection, connect_hdi_lem, both, loads,
}

-- The devices are loaded, some round gives both interfaces, and the engine is enabled, started and
-- stopped.
pub record IsAnswering (hdi : Hdi) : Type 0 where
  pub loaded : loads hdi ≡ true
  pub round : ℕ
  pub in_time : round < get_hdi_service_count
  pub found : both hdi round ≡ true
  pub enables : hdi.enable_ok ≡ true
  pub starts : hdi.start_ok ≡ true
  pub stops : hdi.stop_ok ≡ true

module _ {D : Type 0} where
  -- The ability is connected and a session runs.
  abbrev pub is_active : GnssAbility D → Bool
  is_active g = g.is_hdi_connected && (g.gnss_interface && in_session g.gnss_working_status)

  abbrev request_num : GnssAbility D → ℕ
  request_num g = get_request_num g.mock.sub

  connect-answering :
      (hdi : Hdi) (g : GnssAbility D) → IsAnswering hdi → (connect_hdi hdi g).1 ≡ true
  connect-answering hdi g v = (connect_hdi_lem hdi g).0.1 (v.loaded, v.round, v.in_time, v.found)

  -- A call to the AGNSS interface changes neither the interface nor the status.
  agnss_call-kept :
      (b : Bool) (c : Call) (g : GnssAbility D)
      → ((agnss_call b c g).gnss_interface ≡ g.gnss_interface)
        × ((agnss_call b c g).gnss_working_status ≡ g.gnss_working_status)
  unfolding agnss_call call
  agnss_call-kept b c g = ground arith

  enable_gnss-answering :
      (hdi : Hdi) (g : GnssAbility D)
      → hdi.enable_ok ≡ true
      → g.gnss_interface ≡ true
      → g.gnss_callback ≡ true
      → ((enable_gnss hdi g).0.gnss_interface ≡ true)
        × (enabled_status (enable_gnss hdi g).0.gnss_working_status ≡ true)
  unfolding enable_gnss call enabled_status
  enable_gnss-answering hdi g e i cb = ground (arith, i, cb, e)

  bring_up-answering :
      (hdi : Hdi) (g : GnssAbility D)
      → IsAnswering hdi
      → ((bring_up hdi g).gnss_interface ≡ true)
        × (enabled_status (bring_up hdi g).gnss_working_status ≡ true)
  unfolding bring_up set_agnss_server set_agnss_callback
  bring_up-answering hdi g v =
      let c = connect_hdi-IsConnection hdi g in
      let ok = connect-answering hdi g v in
      let (i, e) =
        enable_gnss-answering hdi (connect_hdi hdi g).0 v.enables (c.gnss ok) (c.gnss_cb ok) in
      let up = (enable_gnss hdi (connect_hdi hdi g).0).0 in
      let (i₁, e₁) = agnss_call-kept _ _ up in
      let (i₂, e₂) = agnss_call-kept _ _ _ in (i₂ ∙ i₁ ∙ i, ap enabled_status (e₂ ∙ e₁) ∙ e)

  start_gnss-answering :
      (hdi : Hdi) (g : GnssAbility D)
      → hdi.start_ok ≡ true
      → g.gnss_interface ≡ true
      → enabled_status g.gnss_working_status ≡ true
      → (request_num g == 0) ≡ false
      → let g' = start_gnss hdi g in
        (in_session g'.gnss_working_status ≡ true)
        × (g'.gnss_interface ≡ true)
        × (g'.is_hdi_connected ≡ g.is_hdi_connected)
  unfolding start_gnss is_gnss_enabled call in_session
  start_gnss-answering hdi g s i e n = ground (arith, s, i, e, n)

  enable_gnss-mock : (hdi : Hdi) (g : GnssAbility D) → (enable_gnss hdi g).0.mock ≡ g.mock
  unfolding enable_gnss call
  enable_gnss-mock hdi g = ground arith

  agnss_call-mock : (b : Bool) (c : Call) (g : GnssAbility D) → (agnss_call b c g).mock ≡ g.mock
  unfolding agnss_call call
  agnss_call-mock b c g = ground arith

  start_gnss-mock : (hdi : Hdi) (g : GnssAbility D) → (start_gnss hdi g).mock ≡ g.mock
  unfolding start_gnss call
  start_gnss-mock hdi g = ground arith

  bring_up-mock : (hdi : Hdi) (g : GnssAbility D) → (bring_up hdi g).mock ≡ g.mock
  unfolding bring_up set_agnss_server set_agnss_callback
  bring_up-mock hdi g =
      agnss_call-mock _ _ _
      ∙ agnss_call-mock _ _ _
      ∙ enable_gnss-mock hdi (connect_hdi hdi g).0
      ∙ (connect_hdi-IsConnection hdi g).same_mock

  add_request-new :
      (hdi : Hdi) (g : GnssAbility D)
      → IsAnswering hdi
      → g.is_hdi_connected ≡ false
      → (request_num g == 0) ≡ false
      → is_active (add_request hdi g) ≡ true
  unfolding add_request
  add_request-new hdi g v c n =
      let up = record (bring_up hdi g) { is_hdi_connected = true } in
      let (i, e) = bring_up-answering hdi g v in
      let m = bring_up-mock hdi g in
      let still : (request_num up == 0) ≡ false = ap (λ x. get_request_num x.sub == 0) m ∙ n in
      let (s, i', c') = start_gnss-answering hdi up v.starts i e still in
      ground (arith, c, s, i', c')

  add_request-active :
      (hdi : Hdi) (g : GnssAbility D) → is_active g ≡ true → is_active (add_request hdi g) ≡ true
  unfolding add_request start_gnss is_gnss_enabled in_session
  add_request-active hdi g a = ground (arith, a)

  remove_request-busy :
      (hdi : Hdi) (g : GnssAbility D)
      → (request_num g == 0) ≡ false
      → is_active g ≡ true
      → is_active (remove_request hdi g) ≡ true
  unfolding remove_request stop_gnss is_gnss_enabled
  remove_request-busy hdi g n a = ground (arith, a, n)

  stop_gnss-mock : (hdi : Hdi) (g : GnssAbility D) → (stop_gnss hdi g).mock ≡ g.mock
  unfolding stop_gnss call
  stop_gnss-mock hdi g = ground arith

  remove_request-idle :
      (hdi : Hdi) (g : GnssAbility D)
      → (request_num g == 0) ≡ true
      → (remove_request hdi g).is_hdi_connected ≡ false
  unfolding remove_request
  remove_request-idle hdi g n =
      let still : (request_num (stop_gnss hdi g) == 0) ≡ true =
        ap (λ x. get_request_num x.sub == 0) (stop_gnss-mock hdi g) ∙ n in
      ground (arith, still)

  either-mock :
      (b : Bool) (x y : GnssAbility D) (m : Mock D)
      → x.mock ≡ m
      → y.mock ≡ m
      → (if b then x else y).mock ≡ m
  either-mock true x y m ex ey = ex
  either-mock false x y m ex ey = ey

  mock-add_request : (hdi : Hdi) (g : GnssAbility D) → (add_request hdi g).mock ≡ g.mock
  unfolding add_request
  mock-add_request hdi g =
      start_gnss-mock hdi _
      ∙ either-mock (not g.is_hdi_connected) (record (bring_up hdi g) { is_hdi_connected = true }) g
          g.mock (bring_up-mock hdi g) refl

  mock-remove_request : (hdi : Hdi) (g : GnssAbility D) → (remove_request hdi g).mock ≡ g.mock
  unfolding remove_request remove_hdi stop_gnss call
  mock-remove_request hdi g = ground arith

  mock-request_record :
      (hdi : Hdi) (r : RequestRecord) (g : GnssAbility D) → (request_record hdi r g).mock ≡ g.mock
  unfolding request_record call
  mock-request_record hdi r g = ground (arith, mock-add_request hdi g, mock-remove_request hdi g)

  abbrev pub none_asked : GnssAbility D → Bool
  none_asked g = request_num g == 0

  pub none_asked-request_record :
      (hdi : Hdi) (r : RequestRecord) (g : GnssAbility D) (b : Bool)
      → none_asked g ≡ b
      → none_asked (request_record hdi r g) ≡ b
  none_asked-request_record hdi r g b n =
      ap (λ x. get_request_num x.sub == 0) (mock-request_record hdi r g) ∙ n

  request_record-active :
      (hdi : Hdi) (r : RequestRecord) (g : GnssAbility D)
      → none_asked g ≡ false
      → is_active g ≡ true
      → is_active (request_record hdi r g) ≡ true
  unfolding request_record call
  request_record-active hdi r g n a =
      ground (arith, add_request-active hdi g a, remove_request-busy hdi g n a)

  -- While there are requests, an active ability stays active.
  request_records-active :
      (hdis : ℕ → Hdi) (n : ℕ) (rs : List RequestRecord) (g : GnssAbility D)
      → none_asked g ≡ false
      → is_active g ≡ true
      → is_active (request_records hdis n rs g) ≡ true
  unfolding request_records
  request_records-active hdis n [] g b a = a
  request_records-active hdis n (r ∷ rs) g b a =
      request_records-active hdis (n + 1) rs (request_record (hdis n) r g)
        (none_asked-request_record (hdis n) r g false b) (request_record-active (hdis n) r g b a)

  request_record-first :
      (hdi : Hdi) (w : WorkRecord) (g : GnssAbility D)
      → IsAnswering hdi
      → none_asked g ≡ false
      → g.is_hdi_connected ≡ false
      → is_active (request_record hdi (record { work_record = w; is_added = true }) g) ≡ true
  unfolding request_record call
  request_record-first hdi w g v n c = add_request-new hdi g v c n

  -- A session that runs.
  abbrev pub has_session : GnssAbility D → Bool
  has_session g = in_session g.gnss_working_status

  stop_gnss-session :
      (hdi : Hdi) (g : GnssAbility D)
      → hdi.stop_ok ≡ true
      → none_asked g ≡ true
      → (has_session g ≡ true → g.gnss_interface ≡ true)
      → has_session (stop_gnss hdi g) ≡ false
  unfolding stop_gnss is_gnss_enabled enabled_status in_session call
  stop_gnss-session hdi g ok n i = ground (arith, ok, n, i)

  remove_hdi-session :
      (hdi : Hdi) (g : GnssAbility D) → has_session (remove_hdi hdi g).0 ≡ has_session g
  unfolding remove_hdi call
  remove_hdi-session hdi g = ground arith

  remove_request-session :
      (hdi : Hdi) (g : GnssAbility D)
      → hdi.stop_ok ≡ true
      → none_asked g ≡ true
      → has_session g ≡ is_active g
      → has_session (remove_request hdi g) ≡ false
  unfolding remove_request
  remove_request-session hdi g ok n j = ground (
    arith,
    j,
    n,
    remove_hdi-session hdi (stop_gnss hdi g),
    stop_gnss-session hdi g ok n (λ h. ground (arith, j, h)),
  )

  -- Without requests, the departure of a row disconnects, and ends the session.
  request_record-last :
      (hdi : Hdi) (w : WorkRecord) (g : GnssAbility D)
      → hdi.stop_ok ≡ true
      → none_asked g ≡ true
      → has_session g ≡ is_active g
      → let g' = request_record hdi (record { work_record = w; is_added = false }) g in
        (g'.is_hdi_connected ≡ false) × (has_session g' ≡ false)
  unfolding request_record call
  request_record-last hdi w g ok n j =
      (remove_request-idle hdi g n, remove_request-session hdi g ok n j)

  -- Without requests, the departures of rows, at least one, disconnect and end the session.
  request_records-idle :
      (hdis : ℕ → Hdi) (n : ℕ) (r : Row) (rs : List Row) (g : GnssAbility D)
      → ((k : ℕ) → (hdis k).stop_ok ≡ true)
      → none_asked g ≡ true
      → has_session g ≡ is_active g
      → let g' = request_records hdis n (map (announce false) (r ∷ rs)) g in
        (g'.is_hdi_connected ≡ false) × (has_session g' ≡ false)
  unfolding request_records
  request_records-idle hdis n r [] g ok b j =
      request_record-last (hdis n) (columns "" (r ∷ [])) g (ok n) b j
  request_records-idle hdis n r (r' ∷ rs) g ok b j =
      let (off, ended) = request_record-last (hdis n) (columns "" (r ∷ [])) g (ok n) b j in
      request_records-idle hdis (n + 1) r' rs (request_record (hdis n) (announce false r) g) ok
        (none_asked-request_record (hdis n) (announce false r) g true b)
        (ground (arith, off, ended))

  -- The ability is connected, and a session runs, exactly if the last record has rows.
  pub record IsServing (g : GnssAbility D) : Type 0 where
    pub settled : IsSettled g.mock.sub
    pub same_rows : rows g.mock.sub.last_record ≡ rows g.mock.sub.new_record
    pub active : is_active g ≡ not (is_empty g.mock.sub.last_record)
    pub connected : g.is_hdi_connected ≡ is_active g
    pub session : has_session g ≡ is_active g

  -- From rows `last` to rows `new`.
  -- An active ability is connected and has a session.
  active-session :
      (g : GnssAbility D)
      → is_active g ≡ true
      → (is_active g ≡ true) × (g.is_hdi_connected ≡ is_active g) × (has_session g ≡ is_active g)
  active-session g a = ground (arith, a)

  announced :
      (hdis : ℕ → Hdi) (last new : List Row) (g : GnssAbility D)
      → ((n : ℕ) → IsAnswering (hdis n))
      → none_asked g ≡ no_rows new
      → is_active g ≡ not (no_rows last)
      → g.is_hdi_connected ≡ is_active g
      → has_session g ≡ is_active g
      → let g' = request_records hdis 0 (announcements last new) g in
        (is_active g' ≡ not (no_rows new))
        × (g'.is_hdi_connected ≡ is_active g')
        × (has_session g' ≡ is_active g')
  unfolding request_records
  announced hdis [] [] g v n a c j = (a, c, j)
  announced hdis (l ∷ ls) [] g v n a c j =
      let off = request_records-idle hdis 0 l ls g (λ k. (v k).stops) n j in
      rw (departures-all ls, append-nil (map (announce false) ls)) (ground (arith, off))
  announced hdis [] (r ∷ rs) g v n a c j =
      let first = request_record-first (hdis 0) (columns "" (r ∷ [])) g (v 0) n (c ∙ a) in
      let on =
        request_records-active hdis 1 (map (announce true) rs)
          (request_record (hdis 0) (announce true r) g)
          (none_asked-request_record (hdis 0) (announce true r) g false n) first in
      rw (arrivals-first 1 rs) (
        active-session
          (request_records hdis 1 (map (announce true) rs)
            (request_record (hdis 0) (announce true r) g))
          on)
  announced hdis (l ∷ ls) (r ∷ rs) g v n a c j =
      active-session (request_records hdis 0 (announcements (l ∷ ls) (r ∷ rs)) g)
        (request_records-active hdis 0 (announcements (l ∷ ls) (r ∷ rs)) g n a)

  mock-request_records :
      (hdis : ℕ → Hdi) (n : ℕ) (rs : List RequestRecord) (g : GnssAbility D)
      → (request_records hdis n rs g).mock ≡ g.mock
  unfolding request_records
  mock-request_records hdis n [] g = refl
  mock-request_records hdis n (r ∷ rs) g =
      mock-request_records hdis (n + 1) rs (request_record (hdis n) r g)
      ∙ mock-request_record (hdis n) r g

  -- Liveness: with a driver that answers each connection, start and stop, a request leaves the ability
  -- connected exactly if it has rows, and with a session that runs exactly if it has rows, whatever
  -- rows were asked for before; and so does the next one.
  pub send_location_request_lem :
      (hdis : ℕ → Hdi) (g : GnssAbility D) (w : WorkRecord)
      → ((n : ℕ) → IsAnswering (hdis n))
      → IsServing g
      → IsValid w
      → let g' = send_location_request hdis g w in
        IsServing g'
        × (g'.is_hdi_connected ≡ not (is_empty w))
        × (has_session g' ≡ not (is_empty w))
  unfolding send_location_request get_request_num size is_empty
  send_location_request_lem hdis g w v s h =
      let (set, l, n, _, e) = location_request_lem g.mock.sub w s.settled h in
      let asked = record g { mock = record g.mock { sub = (location_request g.mock.sub w).0 } } in
      let empty = is_empty-rows w h in
      let num : none_asked asked ≡ no_rows (rows w) =
        is_empty-rows (location_request g.mock.sub w).0.new_record set.new_valid ∙ ap no_rows n in
      let before : is_active asked ≡ not (no_rows (rows g.mock.sub.last_record)) =
        s.active ∙ ap not (is_empty-rows g.mock.sub.last_record s.settled.last_valid) in
      let (active, connected, session) =
        announced hdis (rows g.mock.sub.last_record) (rows w) asked v num before s.connected
          s.session in
      let (active', connected', session') : let g' =
            request_records hdis 0 (location_request g.mock.sub w).1 asked in
          (is_active g' ≡ not (no_rows (rows w)))
          × (g'.is_hdi_connected ≡ is_active g')
          × (has_session g' ≡ is_active g') =
        rw e (active, connected, session) in
      let mock = mock-request_records hdis 0 (location_request g.mock.sub w).1 asked in
      let full = ap not (sym empty) in
      (
        record {
          settled = subst (λ x. IsSettled x.sub) (sym mock) set;
          same_rows =
              ap (λ x. rows x.sub.last_record) mock
              ∙ l
              ∙ sym n
              ∙ ap (λ x. rows x.sub.new_record) (sym mock);
          active =
              active'
              ∙ ap not (
                  sym (
                    ap (λ x. is_empty x.sub.last_record) mock
                    ∙ is_empty-rows (location_request g.mock.sub w).0.last_record set.last_valid
                    ∙ ap no_rows l));
          connected = connected';
          session = session';
        },
        connected' ∙ active' ∙ full,
        session' ∙ active' ∙ full,
      )
