-- ===== src/WorkRecord.antt =====
-- services/location_locator/locator/source/work_record.cpp: the record of the requests that an
-- ability works for, kept as five parallel vectors and a count.
-- `int` is ℤ, and `num_`, which counts the rows up from 0, is ℕ; neither has a width here.
-- A vector is a list. The mutex is left out: each method holds it from start to end.
pub mod Columns
pub mod Rows
pub mod Copy
pub mod Marshal
pub mod RoundTrip
pub mod Refines
mod Tests
use gitee_oh_base_location.Base.{
  Bool, List, String, [], erase_idx, false, get_or, if◌then◌else◌, int_eq, length, ltb, nat_eq,
  negsuc, pos, string_eq, suc, true, zero, ℕ, ℤ, ◌&&◌, ◌++◌, ◌+◌, ◌-◌, ◌==◌, ◌∷◌,
}

pub record WorkRecord : Type 0 where
  pub num : ℕ
  pub uids : List ℤ
  pub pids : List ℤ
  pub names : List String
  pub time_interval : List ℤ
  pub uuid : List String
  pub device_id : String

unfoldable pub new_record : WorkRecord
new_record = record {
  num = 0;
  uids = [];
  pids = [];
  names = [];
  time_interval = [];
  uuid = [];
  device_id = "";
}

unfoldable pub size : WorkRecord → ℕ
size w = w.num

unfoldable pub is_empty : WorkRecord → Bool
is_empty w = w.num == 0

unfoldable pub add : WorkRecord → ℤ → ℤ → String → ℤ → String → WorkRecord
add w uid pid name time_interval uuid = record w {
  num = w.num + 1;
  uids = w.uids ++ uid ∷ [];
  pids = w.pids ++ pid ∷ [];
  names = w.names ++ name ∷ [];
  time_interval = w.time_interval ++ time_interval ∷ [];
  uuid = w.uuid ++ uuid ∷ [];
}

-- `index >= 0 && index < num_`, and then the element. Under the invariant there is one; the
-- source's behaviour where there is none is undefined, and the default stands for it.
unfoldable pub at_index {ℓ} : {A : Type ℓ} → ℕ → List A → A → ℤ → A
at_index num column default (pos i) = if ltb i num then get_or column i default else default
at_index num column default (negsuc i) = default

unfoldable pub get_name : WorkRecord → ℤ → String
get_name w index = at_index w.num w.names "" index

unfoldable pub get_uid : WorkRecord → ℤ → ℤ
get_uid w index = at_index w.num w.uids (negsuc 0) index

unfoldable pub get_pid : WorkRecord → ℤ → ℤ
get_pid w index = at_index w.num w.pids (negsuc 0) index

unfoldable pub get_time_interval : WorkRecord → ℤ → ℤ
get_time_interval w index = at_index w.num w.time_interval (negsuc 0) index

unfoldable pub get_uuid : WorkRecord → ℤ → String
get_uuid w index = at_index w.num w.uuid "" index

unfoldable pub set_device_id : WorkRecord → String → WorkRecord
set_device_id w id = record w { device_id = id }

unfoldable pub get_device_id : WorkRecord → String
get_device_id w = w.device_id

-- The loop of `Remove` and `Find` over `uids_`: it reads `names_[i]` and `uuid_[i]` in step, and
-- stops at the first row that agrees. The result is the final `i`.
unfoldable pub match_index : ℤ → String → String → List ℤ → List String → List String → ℕ
match_index uid name uuid (u ∷ us) (n ∷ ns) (d ∷ ds) =
    if u == uid && (name == n && uuid == d) then 0 else suc (match_index uid name uuid us ns ds)
match_index uid name uuid us ns ds = length us

unfoldable pub erase_row : WorkRecord → ℕ → WorkRecord
erase_row w i = record w {
  num = w.num - 1;
  uids = erase_idx w.uids i;
  pids = erase_idx w.pids i;
  names = erase_idx w.names i;
  time_interval = erase_idx w.time_interval i;
  uuid = erase_idx w.uuid i;
}

-- `if (column.size() - i == 0) return false;` and the erasure of row `i`.
unfoldable pub erase_found : WorkRecord → ℕ → ℕ → WorkRecord × Bool
erase_found w count i = if count - i == 0 then (w, false) else (erase_row w i, true)

-- The pid is not compared.
unfoldable pub remove : WorkRecord → ℤ → ℤ → String → String → WorkRecord × Bool
remove w uid pid name uuid =
    if length w.uids == 0
    then (w, false)
    else erase_found w (length w.uids) (match_index uid name uuid w.uids w.names w.uuid)

unfoldable pub name_index : String → List String → ℕ
name_index name [] = 0
name_index name (n ∷ ns) = if n == name then 0 else suc (name_index name ns)

unfoldable pub remove_name : WorkRecord → String → WorkRecord × Bool
remove_name w name =
    if length w.uids == 0
    then (w, false)
    else erase_found w (length w.names) (name_index name w.names)

unfoldable pub find : WorkRecord → ℤ → String → String → Bool
find w uid name uuid =
    if length w.uids == 0
    then false
    else ltb (match_index uid name uuid w.uids w.names w.uuid) (length w.uids)

unfoldable pub clear : WorkRecord → WorkRecord
clear w = record w { num = 0; uids = []; pids = []; names = []; time_interval = []; uuid = [] }

-- `rounds` more rows of `other`, from row `i` on.
unfoldable pub copy_rows : WorkRecord → ℕ → ℕ → WorkRecord → WorkRecord
copy_rows other zero i w = w
copy_rows other (suc rounds) i w = copy_rows other rounds (i + 1) (
    add w (get_uid other (pos i)) (get_pid other (pos i)) (get_name other (pos i))
      (get_time_interval other (pos i)) (get_uuid other (pos i)))

-- For two records that are not one object.
unfoldable pub set : WorkRecord → WorkRecord → WorkRecord
set w other = copy_rows other (size other) 0 (clear w)
