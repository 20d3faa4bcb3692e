-- ===== src/SubAbility/Empty.antt =====
-- Requests from no rows, to no rows, and when a record is empty.
use gitee_oh_base_location.Base.{
  ℕ, Bool, List, [], ap, arith, false, filter_by, not, refl, sym, true, ◌+◌, ◌∙◌, ◌∷◌, ◌≡◌,
}
use gitee_oh_base_location.WorkRecord.{WorkRecord, is_empty}
use gitee_oh_base_location.WorkRecord.Columns.{Row, columns, rows, IsValid, columns-rows}
use gitee_oh_base_location.SubAbility.Announce.{stands, arrivals}

pub arrivals-first : (i : ℕ) (rs : List Row) → arrivals [] i rs ≡ rs
arrivals-first i [] = refl
arrivals-first i (r ∷ rs) = ap (◌∷◌ r) (arrivals-first (i + 1) rs)

pub departures-all : (rs : List Row) → filter_by (λ r. not (stands [] r)) rs ≡ rs
departures-all [] = refl
departures-all (r ∷ rs) = ap (◌∷◌ r) (departures-all rs)

abbrev pub no_rows : List Row → Bool
no_rows [] = true
no_rows (r ∷ rs) = false

pub is_empty-rows : (w : WorkRecord) → IsValid w → is_empty w ≡ no_rows (rows w)
unfolding is_empty
is_empty-rows w h = ap is_empty (sym (columns-rows w h)) ∙ by_rows (rows w)
  where
    by_rows : (rs : List Row) → is_empty (columns w.device_id rs) ≡ no_rows rs
    by_rows [] = refl
    by_rows (r ∷ rs) = ground arith
