-- ===== src/Billing/Dunning/Plans.antt =====
-- services/cmd/billing/plans.go, syncPlanEntitlements with the queries that it makes: what the catalog is told when
-- a suspended partner has paid.
use himate_system.Base.{
  ℕ, ◌==◌, ltb, leb, Bool, true, ◌&&◌, Option, none, some, List, [], map, if◌then◌else◌, find,
  select, sort_by, Text, codes, text_eq, Unicode, to_upper, trim_space,
}
use himate_system.Payments.{Money}
use himate_system.Billing.Dunning.{
  ModuleSelection, SubscriptionPlan, set_entitlements, DunningStore, catalog_failed, plan_missing,
  Services, Step, done, fail, require,
}

-- `effective_to IS NULL OR effective_to>$2`
abbrev open_ended_or_after : ℕ → Option ℕ → Bool
open_ended_or_after at none = true
open_ended_or_after at (some day) = ltb at day

abbrev in_effect : Text → ℕ → ModuleSelection → Bool
in_effect owner at r =
    text_eq r.owner owner && leb r.effective_from at && open_ended_or_after at r.effective_to

module _ (before : Text → Text → Bool) where
  abbrev by_module_key : ModuleSelection → ModuleSelection → Bool
  by_module_key a b = before a.module_key b.module_key

  abbrev by_position : ModuleSelection → ModuleSelection → Bool
  by_position a b =
      if ltb a.position b.position then true else a.position == b.position && by_module_key a b

abbrev module_keys : List ModuleSelection → List Text
module_keys rows = map (λ (r : ModuleSelection). r.module_key) rows

module _ {m : Money} ⦃u : Unicode⦄ (services : Services m) where
  -- planModulesAt
  unfoldable pub plan_modules_at : Text → ℕ → DunningStore m → List Text
  plan_modules_at plan_key at s = module_keys (
      sort_by (by_position services.before)
        (select (in_effect (to_upper plan_key) at) s.plan_modules))

  -- flexModulesAt
  unfoldable pub flex_modules_at : Text → ℕ → DunningStore m → List Text
  flex_modules_at partner at s =
      module_keys
        (sort_by (by_module_key services.before) (select (in_effect partner at) s.selections))

abbrev plan_key_is : ⦃u : Unicode⦄ → Text → SubscriptionPlan → Bool
plan_key_is key p = text_eq p.plan_key (to_upper (trim_space key))

module _ {m : Money} ⦃u : Unicode⦄ where
  abbrev pub load_plan : Text → DunningStore m → Option SubscriptionPlan
  load_plan key s = find (plan_key_is key) s.plans

module _ {m : Money} ⦃u : Unicode⦄ (services : Services m) where
  -- For a plan with no modules of its own, UNLIMITED, the list is empty.
  abbrev plan_keys : Text → SubscriptionPlan → ℕ → DunningStore m → List Text
  plan_keys partner p at s =
      if text_eq p.selection_mode (codes "FIXED")
      then plan_modules_at services p.plan_key at s
      else if text_eq p.selection_mode (codes "SELECTABLE")
      then flex_modules_at services partner at s
      else []

  abbrev sync_plan : Text → Option SubscriptionPlan → ℕ → Step m (Unit {0})
  sync_plan partner none at s = fail plan_missing s
  sync_plan partner (some p) at s =
      if text_eq p.selection_mode (codes "CUSTOM")
      then done s
      else require services (set_entitlements partner p.plan_key (plan_keys partner p at s))
          catalog_failed s

  -- syncPlanEntitlements
  unfoldable pub sync_plan_entitlements : Text → Text → ℕ → Step m (Unit {0})
  sync_plan_entitlements partner plan_key at s = sync_plan partner (load_plan plan_key s) at s
