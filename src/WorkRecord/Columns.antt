-- ===== src/WorkRecord/Columns.antt =====
-- The abstract view of a work record: one list of rows, of which the five vectors are the columns.
use gitee_oh_base_location.Base.{
  List, String, [], ap, arith, length, length-map, map, refl, subst, suc, zero, ℕ, ℤ, ◌∷◌, ◌≡◌,
}
use gitee_oh_base_location.WorkRecord.{WorkRecord}

pub record Row : Type 0 where
  pub uid : ℤ
  pub pid : ℤ
  pub name : String
  pub interval : ℤ
  pub uuid : String

abbrev pub columns : String → List Row → WorkRecord
columns id rs = record {
  num = length rs;
  uids = map (λ r. r.uid) rs;
  pids = map (λ r. r.pid) rs;
  names = map (λ r. r.name) rs;
  time_interval = map (λ r. r.interval) rs;
  uuid = map (λ r. r.uuid) rs;
  device_id = id;
}

zip_rows : List ℤ → List ℤ → List String → List ℤ → List String → List Row
zip_rows (u ∷ us) (p ∷ ps) (n ∷ ns) (t ∷ ts) (d ∷ ds) =
    record { uid = u; pid = p; name = n; interval = t; uuid = d } ∷ zip_rows us ps ns ts ds
zip_rows us ps ns ts ds = []

unfoldable pub rows : WorkRecord → List Row
unfolding zip_rows
rows w = zip_rows w.uids w.pids w.names w.time_interval w.uuid

-- The five vectors are as long as `num_` says.
pub record IsValid (w : WorkRecord) : Type 0 where
  pub uids_num : length w.uids ≡ w.num
  pub pids_num : length w.pids ≡ w.num
  pub names_num : length w.names ≡ w.num
  pub time_interval_num : length w.time_interval ≡ w.num
  pub uuid_num : length w.uuid ≡ w.num

pub columns-IsValid : (id : String) (rs : List Row) → IsValid (columns id rs)
columns-IsValid id rs = record {
  uids_num = length-map _ rs;
  pids_num = length-map _ rs;
  names_num = length-map _ rs;
  time_interval_num = length-map _ rs;
  uuid_num = length-map _ rs;
}

zip_rows-columns :
    (rs : List Row)
    → zip_rows
        (map (λ r. r.uid) rs)
        (map (λ r. r.pid) rs)
        (map (λ r. r.name) rs)
        (map (λ r. r.interval) rs)
        (map (λ r. r.uuid) rs)
      ≡ rs
unfolding zip_rows
zip_rows-columns [] = refl
zip_rows-columns (r ∷ rs) = ap (◌∷◌ r) (zip_rows-columns rs)

pub rows-columns : (id : String) (rs : List Row) → rows (columns id rs) ≡ rs
unfolding rows
rows-columns id rs = zip_rows-columns rs

columns-zip_rows :
    (id : String) (us ps : List ℤ) (ns : List String) (ts : List ℤ) (ds : List String) (n : ℕ)
    → length us ≡ n
    → length ps ≡ n
    → length ns ≡ n
    → length ts ≡ n
    → length ds ≡ n
    → columns id (zip_rows us ps ns ts ds) ≡ record {
      num = n;
      uids = us;
      pids = ps;
      names = ns;
      time_interval = ts;
      uuid = ds;
      device_id = id;
    }
unfolding zip_rows
columns-zip_rows id [] [] [] [] [] n h₁ h₂ h₃ h₄ h₅ = ground arith
columns-zip_rows id (u ∷ us) (p ∷ ps) (m ∷ ns) (t ∷ ts) (d ∷ ds) zero h₁ h₂ h₃ h₄ h₅ =
    absurd (omega arith)
columns-zip_rows id (u ∷ us) (p ∷ ps) (m ∷ ns) (t ∷ ts) (d ∷ ds) (suc n) h₁ h₂ h₃ h₄ h₅ = cc (
    columns-zip_rows id us ps ns ts ds n (omega arith) (omega arith) (omega arith) (omega arith)
      (omega arith))
columns-zip_rows id us ps ns ts ds n h₁ h₂ h₃ h₄ h₅ = absurd (omega arith)

-- A valid record is the columns of its rows.
pub columns-rows : (w : WorkRecord) → IsValid w → columns w.device_id (rows w) ≡ w
unfolding rows
columns-rows w v =
    columns-zip_rows w.device_id w.uids w.pids w.names w.time_interval w.uuid w.num v.uids_num
      v.pids_num v.names_num v.time_interval_num v.uuid_num

-- What holds of all columns holds of each valid record and its rows.
pub IsValid_ind {ℓ} :
    (P : WorkRecord → List Row → Type ℓ)
    → ((id : String) (rs : List Row) → P (columns id rs) rs)
    → (w : WorkRecord) → IsValid w
    → P w (rows w)
IsValid_ind P h w v = subst (λ x. P x (rows w)) (columns-rows w v) (h w.device_id (rows w))
