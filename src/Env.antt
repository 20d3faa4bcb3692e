-- ===== src/Env.antt =====
-- What the location service asks of the rest of the system: permissions, bundles, accounts and the
-- apps in the foreground. Each handler is given the answers that hold while it runs.
use gitee_oh_base_location.Base.{
  Bool, List, Option, String, any_by, false, int_eq, nat_eq, none, not, some, string_eq, ℤ, ◌==◌,
}
use gitee_oh_base_location.Common.{AccessTokens, SystemAbility}

pub record Env : Type 0 where
  pub tokens : AccessTokens
  -- `GetBundleNameByUid`; `none` where it fails.
  pub bundle_name : ℤ → Option String
  -- `GetForegroundApplications`; `none` where the app manager is not available.
  pub foreground : Option (List String)
  -- `GetOsAccountLocalIdFromUid`
  pub user_id : ℤ → ℤ
  -- Whether `CommonUtils::GetRemoteObject` finds the ability.
  pub remote : SystemAbility → Bool

-- LocatorBackgroundProxy::IsAppBackground
unfoldable pub is_app_background : Env → String → Bool
is_app_background env bundle_name = elim env.foreground [
  | none ↦ false
  | some apps ↦ not (any_by (λ app. bundle_name == app) apps)
]
