-- ===== src/NetworkAbility/Requests.antt =====
-- What one LocationRequest sends to the service, and what it does not send while there is none.
use gitee_oh_base_location.Base.{
  ℕ, List, [], ap, append-nil, arith, false, map, refl, snoc_append, subst, sym, true, ◌++◌, ◌+◌,
  ◌∙◌, ◌∷◌, ◌≡◌, Bool, if◌then◌else◌, map-append, not, pos, times, wrap_int32, wrap_int32_small, ℤ,
  ◌*◌, ◌≤◌,
}
use gitee_oh_base_location.WorkRecord.{WorkRecord}
use gitee_oh_base_location.WorkRecord.Columns.{Row, rows, IsValid}
use gitee_oh_base_location.WorkRecord.Copy.{get-row}
use gitee_oh_base_location.SubAbility.Announce.{announce, stands}
use gitee_oh_base_location.SubAbility.Difference.{
  IsAligned, missing_from, differences, location_request_difference,
}
use gitee_oh_base_location.SubAbility.{RequestRecord, location_request}
use gitee_oh_base_location.SubAbility.Request.{IsSettled, location_request_again}
use gitee_oh_base_location.NetworkAbility.{
  NetworkAbility, Nlp, NlpMessage, request_network_location, remove_network_location, nlp_message,
  ensure_service, request_record, request_records, send_location_request,
}
use gitee_oh_base_location.NetworkAbility.Connect.{has_name}

-- The intervals are not negative, and their milliseconds fit into 32 bits.
abbrev pub AreShort : List Row → Type 0
AreShort [] = Unit
AreShort (r ∷ rs) = ((n : ℕ) × (r.interval ≡ pos n) × (n ≤ 2147483)) × AreShort rs

-- The messages for the rows that are gone, and for those that are new.
abbrev pub removal : Row → NlpMessage
removal r = remove_network_location r.uuid

abbrev pub start : Row → NlpMessage
start r = request_network_location r.uuid (times r.interval 1000)

nlp_message-removal : (rs : List Row) → map nlp_message (map (announce false) rs) ≡ map removal rs
unfolding nlp_message
nlp_message-removal [] = refl
nlp_message-removal (r ∷ rs) =
    let (_, _, _, _, d) = get-row "" [] r [] in rw (d, nlp_message-removal rs) refl

wrap_int32-interval :
    (i : ℤ) (n : ℕ) → i ≡ pos n → n ≤ 2147483 → wrap_int32 (times i 1000) ≡ times i 1000
wrap_int32-interval i n e le = rw e (wrap_int32_small (n * 1000) (omega arith))

nlp_message-start :
    (rs : List Row) → AreShort rs → map nlp_message (map (announce true) rs) ≡ map start rs
unfolding nlp_message
nlp_message-start [] v = refl
nlp_message-start (r ∷ rs) ((n, e, le), v) =
    let (_, _, _, t, d) = get-row "" [] r [] in
    rw (d, t, wrap_int32-interval r.interval n e le, nlp_message-start rs v) refl

missing_from-AreShort : (there rs : List Row) → AreShort rs → AreShort (missing_from there rs)
missing_from-AreShort there [] v = v
missing_from-AreShort there (r ∷ rs) (h, v) =
    either (stands there r) (missing_from-AreShort there rs v)
  where
    either :
        (b : Bool)
        → AreShort (missing_from there rs)
        → AreShort (if not b then r ∷ missing_from there rs else missing_from there rs)
    either true k = k
    either false k = (h, k)

nlp_message-differences :
    (last new : List Row)
    → AreShort new
    → map nlp_message (differences last new)
      ≡ map removal (missing_from new last) ++ map start (missing_from last new)
nlp_message-differences last new v = rw (
  map-append,
  nlp_message-removal (missing_from new last),
  nlp_message-start (missing_from last new) (missing_from-AreShort last new v),
)

module _ {D : Type 0} where
  request_record-ready :
      (nlp : Nlp) (r : RequestRecord) (a : NetworkAbility D)
      → a.nlp_service_ready ≡ true
      → a.nlp_service_proxy ≡ true
      → request_record nlp r a ≡ record a { sent = a.sent ++ nlp_message r ∷ [] }
  unfolding request_record ensure_service
  request_record-ready nlp r a ready proxy = ground (arith, ready, proxy)

  request_records-ready :
      (nlps : ℕ → Nlp) (n : ℕ) (rs : List RequestRecord) (a : NetworkAbility D)
      → a.nlp_service_ready ≡ true
      → a.nlp_service_proxy ≡ true
      → request_records nlps n rs a ≡ record a { sent = a.sent ++ map nlp_message rs }
  unfolding request_records
  request_records-ready nlps n [] a ready proxy =
      ap (λ x. record a { sent = x }) (sym (append-nil a.sent))
  request_records-ready nlps n (r ∷ rs) a ready proxy =
      let next = record a { sent = a.sent ++ nlp_message r ∷ [] } in
      ap (request_records nlps (n + 1) rs) (request_record-ready (nlps n) r a ready proxy)
      ∙ request_records-ready nlps (n + 1) rs next ready proxy
      ∙ ap (λ x. record a { sent = x }) (snoc_append a.sent (nlp_message r) (map nlp_message rs))

  -- With a service that is connected, and where each row that is asked for has a uid and name that
  -- no row of the last record has, or has the uuid of the row of the last record at its own place, a
  -- request sends one message to remove each row of the last record that is not asked for any more,
  -- and then one for each row that is new, with its interval in milliseconds, where the intervals
  -- are from 0 to 2147483 seconds; the rows that are asked for become the records, and the
  -- connection stays.
  pub send_location_request-sends :
      (nlps : ℕ → Nlp) (a : NetworkAbility D) (w : WorkRecord)
      → a.nlp_service_ready ≡ true
      → a.nlp_service_proxy ≡ true
      → IsSettled a.mock.sub
      → IsValid w
      → IsAligned (rows a.mock.sub.last_record) 0 (rows w)
      → AreShort (rows w)
      → let a' = send_location_request nlps a w in
        (a'.sent
          ≡ a.sent
            ++ (map removal (missing_from (rows w) (rows a.mock.sub.last_record))
                ++ map start (missing_from (rows a.mock.sub.last_record) (rows w))))
        × (rows a'.mock.sub.last_record ≡ rows w)
        × IsSettled a'.mock.sub
        × (a'.nlp_service_ready ≡ true)
        × (a'.nlp_service_proxy ≡ true)
  unfolding send_location_request
  send_location_request-sends nlps a w ready proxy s h aligned short =
      let (s', l, _, _, e) = location_request_difference a.mock.sub w s h aligned in
      let asked = record a { mock = record a.mock { sub = (location_request a.mock.sub w).0 } } in
      let done = request_records-ready nlps 0 (location_request a.mock.sub w).1 asked ready proxy in
      (
        ap (λ x. x.sent) done
            ∙ ap (λ x. a.sent ++ map nlp_message x) e
            ∙ ap (◌++◌ a.sent)
                (nlp_message-differences (rows a.mock.sub.last_record) (rows w) short),
        ap (λ x. rows x.mock.sub.last_record) done ∙ l,
        subst (λ x. IsSettled x.mock.sub) (sym done) s',
        ap (λ x. x.nlp_service_ready) done ∙ ready,
        ap (λ x. x.nlp_service_proxy) done ∙ proxy,
      )

  request_record-nameless :
      (nlp : Nlp) (r : RequestRecord) (a : NetworkAbility D)
      → a.nlp_service_ready ≡ false
      → has_name nlp ≡ false
      → request_record nlp r a ≡ a
  unfolding request_record ensure_service
  request_record-nameless nlp r a ready h = ground (arith, ready, h)

  request_records-nameless :
      (nlps : ℕ → Nlp) (n : ℕ) (rs : List RequestRecord) (a : NetworkAbility D)
      → a.nlp_service_ready ≡ false
      → ((k : ℕ) → has_name (nlps k) ≡ false)
      → request_records nlps n rs a ≡ a
  unfolding request_records
  request_records-nameless nlps n [] a ready h = refl
  request_records-nameless nlps n (r ∷ rs) a ready h =
      ap (request_records nlps (n + 1) rs) (request_record-nameless (nlps n) r a ready (h n))
      ∙ request_records-nameless nlps (n + 1) rs a ready h

  -- A request for which the service has no usable name sends nothing, but its rows become the records:
  -- the same request, made again when the service is available, sends nothing either.
  pub send_location_request_lost :
      (nlps later : ℕ → Nlp) (a : NetworkAbility D) (w : WorkRecord)
      → a.nlp_service_ready ≡ false
      → ((k : ℕ) → has_name (nlps k) ≡ false)
      → IsSettled a.mock.sub
      → IsValid w
      → (send_location_request later (send_location_request nlps a w) w).sent ≡ a.sent
  unfolding send_location_request request_records
  send_location_request_lost nlps later a w ready h s v =
      let sub' = (location_request a.mock.sub w).0 in
      let asked = record a { mock = record a.mock { sub = sub' } } in
      let first : send_location_request nlps a w ≡ asked =
        request_records-nameless nlps 0 (location_request a.mock.sub w).1 asked ready h in
      let again : (location_request sub' w).1 ≡ [] =
        ap (λ x. x.1) (location_request_again a.mock.sub w s v) in
      ap (λ x. (send_location_request later x w).sent) first
      ∙ ap
          (λ x.
            (request_records later 0 x (record asked {
              mock = record asked.mock { sub = (location_request sub' w).0 };
            })).sent)
          again
