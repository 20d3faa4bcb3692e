-- ===== src/GnssAbility/Stuck.antt =====
-- A first request that meets no driver: RequestRecord sets the connection flag all the same.
use gitee_oh_base_location.Base.{ℕ, List, [], arith, false, true, ◌+◌, ◌∷◌, ◌≡◌}
use gitee_oh_base_location.SubAbility.{RequestRecord}
use gitee_oh_base_location.GnssAbility.{
  GnssAbility, Hdi, GnssWorkingStatus, call, is_gnss_enabled, enable_gnss, start_gnss, stop_gnss,
  agnss_call, set_agnss_server, set_agnss_callback, bring_up, connect_hdi, add_request,
  remove_request, request_record, request_records,
}
use gitee_oh_base_location.GnssAbility.Connect.{loads}
use gitee_oh_base_location.GnssAbility.Session.{none_asked, none_asked-request_record}

-- The flag says that the driver is connected, and there is no interface to it.
pub record IsStuck {D : Type 0} (status : GnssWorkingStatus) (g : GnssAbility D) : Type 0 where
  pub flag : g.is_hdi_connected ≡ true
  pub no_interface : g.gnss_interface ≡ false
  pub same_status : g.gnss_working_status ≡ status
  pub some_asked : none_asked g ≡ false

module _ {D : Type 0} where
  request_record-IsStuck :
      (status : GnssWorkingStatus) (hdi : Hdi) (r : RequestRecord) (g : GnssAbility D)
      → IsStuck status g
      → IsStuck status (request_record hdi r g)
  unfolding request_record add_request remove_request start_gnss stop_gnss call
  request_record-IsStuck status hdi r g v =
      let f = v.flag in
      let i = v.no_interface in
      let e = v.same_status in
      let n = v.some_asked in
      record {
        flag = ground (arith, f, i, n);
        no_interface = ground (arith, f, i, n);
        same_status = ground (arith, f, i, n, e);
        some_asked = none_asked-request_record hdi r g false n;
      }

  request_records-IsStuck :
      (status : GnssWorkingStatus) (hdis : ℕ → Hdi) (n : ℕ) (rs : List RequestRecord)
      (g : GnssAbility D)
      → IsStuck status g
      → IsStuck status (request_records hdis n rs g)
  unfolding request_records
  request_records-IsStuck status hdis n [] g v = v
  request_records-IsStuck status hdis n (r ∷ rs) g v =
      request_records-IsStuck status hdis (n + 1) rs (request_record (hdis n) r g)
        (request_record-IsStuck status (hdis n) r g v)

  first-IsStuck :
      (hdi : Hdi) (r : RequestRecord) (g : GnssAbility D)
      → g.is_hdi_connected ≡ false
      → g.gnss_interface ≡ false
      → loads hdi ≡ false
      → none_asked g ≡ false
      → r.is_added ≡ true
      → IsStuck g.gnss_working_status (request_record hdi r g)
  unfolding request_record add_request start_gnss bring_up connect_hdi enable_gnss set_agnss_server
      set_agnss_callback agnss_call is_gnss_enabled call
  first-IsStuck hdi r g c i l n added = record {
    flag = ground (arith, c, i, l, added);
    no_interface = ground (arith, c, i, l, added);
    same_status = ground (arith, c, i, l, added);
    some_asked = none_asked-request_record hdi r g false n;
  }

  -- A first request for which the device manager does not load the devices leaves the connection flag
  -- set without an interface to the driver; and so do all that follow, whatever the driver answers to
  -- them: while there are requests, none of them connects to it, and the working status stays.
  pub request_records-request_record-IsStuck :
      (hdi : Hdi) (hdis : ℕ → Hdi) (n : ℕ) (r : RequestRecord) (rs : List RequestRecord)
      (g : GnssAbility D)
      → g.is_hdi_connected ≡ false
      → g.gnss_interface ≡ false
      → loads hdi ≡ false
      → none_asked g ≡ false
      → r.is_added ≡ true
      → IsStuck g.gnss_working_status (request_records hdis n rs (request_record hdi r g))
  request_records-request_record-IsStuck hdi hdis n r rs g c i l m added =
      request_records-IsStuck g.gnss_working_status hdis n rs (request_record hdi r g)
        (first-IsStuck hdi r g c i l m added)
