-- ===== src/Fusion/QuickFix.antt =====
-- When `Process` asks for a quick fix.
use Prim.Native.Nat.{bit_and}
use gitee_oh_base_location.Base.{
  ℕ, Bool, List, [], any_by, arith, false, inl, inr, int_eq, nat_eq, not, refl, string_eq, ℤ, ◌==◌,
  ◌||◌, ◌∷◌, ◌≡◌, ◌⊎◌, some, true,
}
use gitee_oh_base_location.Common.{gnss_ability}
use gitee_oh_base_location.Location.{scene_navigation, scene_trajectory_tracking}
use gitee_oh_base_location.Fusion.{
  Fusion, quick_fix_flag, switch_flag, active_fusion_strategies, process,
}

-- `ActiveFusionStrategies` for one request after another.
unfoldable pub active_all : Fusion → List ℤ → Fusion
active_all f [] = f
active_all f (t ∷ ts) = active_all (active_fusion_strategies f t) ts

-- The types that switch the quick fix on.
abbrev pub wants_quick_fix : ℤ → Bool
wants_quick_fix t = t == scene_navigation || t == scene_trajectory_tracking

-- Only the two lowest bits are used.
abbrev pub IsFlag : ℕ → Type 0
IsFlag flag = (flag ≡ 0) ⊎ ((flag ≡ 1) ⊎ ((flag ≡ 2) ⊎ (flag ≡ 3)))

abbrev has_quick_fix : ℕ → Bool
has_quick_fix flag = not (bit_and flag quick_fix_flag == 0)

switch_flag-IsFlag : (t : ℤ) (flag : ℕ) → IsFlag flag → IsFlag (switch_flag t flag)
unfolding switch_flag
switch_flag-IsFlag t flag (inl e) = rw e (ground arith)
switch_flag-IsFlag t flag (inr (inl e)) = rw e (ground arith)
switch_flag-IsFlag t flag (inr (inr (inl e))) = rw e (ground arith)
switch_flag-IsFlag t flag (inr (inr (inr e))) = rw e (ground arith)

has_quick_fix-switch_flag :
    (t : ℤ) (flag : ℕ)
    → IsFlag flag
    → has_quick_fix (switch_flag t flag) ≡ (wants_quick_fix t || has_quick_fix flag)
unfolding switch_flag
has_quick_fix-switch_flag t flag (inl e) = rw e (ground arith)
has_quick_fix-switch_flag t flag (inr (inl e)) = rw e (ground arith)
has_quick_fix-switch_flag t flag (inr (inr (inl e))) = rw e (ground arith)
has_quick_fix-switch_flag t flag (inr (inr (inr e))) = rw e (ground arith)

abbrev settled : ℕ → Fusion
settled flag = record { fused_flag = flag; need_reset = false }

active_all-settled :
    (flag : ℕ) (ts : List ℤ)
    → IsFlag flag
    → has_quick_fix (active_all (settled flag) ts).fused_flag
      ≡ (any_by wants_quick_fix ts || has_quick_fix flag)
unfolding active_all active_fusion_strategies
active_all-settled flag [] v = refl
active_all-settled flag (t ∷ ts) v =
    let ih = active_all-settled (switch_flag t flag) ts (switch_flag-IsFlag t flag v) in
    ground (arith, ih, has_quick_fix-switch_flag t flag v)

-- In the state that `Process` leaves, and for at least one request, the GNSS ability asks for a quick
-- fix exactly if one of the requests wants it.
pub process-active_all :
    (f : Fusion) (t : ℤ) (ts : List ℤ)
    → f.need_reset ≡ true
    → (process (active_all f (t ∷ ts)) gnss_ability).1 ≡ some (any_by wants_quick_fix (t ∷ ts))
unfolding active_all active_fusion_strategies process
process-active_all f t ts h =
    let ih = active_all-settled (switch_flag t 0) ts (switch_flag-IsFlag t 0 (inl refl)) in
    rw h (ground (arith, ih, has_quick_fix-switch_flag t 0 (inl refl)))

-- With no request the flag is not reset: the quick fix of the requests before is asked for again.
pub process-active_all_nil :
    (f g : Fusion) (t : ℤ) (ts : List ℤ)
    → f.need_reset ≡ true
    → g ≡ (process (active_all f (t ∷ ts)) gnss_ability).0
    → (process (active_all g []) gnss_ability).1 ≡ some (any_by wants_quick_fix (t ∷ ts))
unfolding active_all process
process-active_all_nil f g t ts h e = rw e (process-active_all f t ts h)
