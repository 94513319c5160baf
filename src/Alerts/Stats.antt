-- ===== src/Alerts/Stats.antt =====
-- The counts of the statistics.
use guardian_pi.Base.{
  ℕ, ◌+◌, ◌≤◌, String, ◌≡◌, refl, true, List, [], ◌∷◌, All, contains, length, arith, eq_iff, ◌==◌,
  ◌≢◌, Bool-cases, inl, inr, if◌then◌else◌,
}
use mathlib.Core.Path.{subst}
use guardian_pi.Http.{ok}
use guardian_pi.Db.{Table}
use guardian_pi.Schemas.{Pydantic}
use guardian_pi.Models.{Alert, User}
use guardian_pi.Deps.{Security}
use guardian_pi.Alerts.{AlertStats, get_alert_stats, severities, count_where}

abbrev pub IsClassified : List Alert → Type 0
IsClassified = All (λ a. contains severities a.severity ≡ true)

abbrev by : String → List Alert → ℕ
by sev = count_where (λ a. a.severity == sev)

-- Whether an alert of severity `s` adds to a count.
abbrev hit : String → String → ℕ
hit s sev = if s == sev then 1 else 0

abbrev hits : String → ℕ
hits s = hit s "critical" + hit s "high" + hit s "medium" + hit s "low" + hit s "info"

abbrev IsOne : String → Type 0
IsOne s = hits s ≡ 1

hits-IsOne : (s : String) → contains severities s ≡ true → IsOne s
hits-IsOne s h = elim (Bool-cases ("critical" == s)) [
  | inl e ↦ subst IsOne ((eq_iff _ _).0 e) refl
  | inr n1 ↦ elim (Bool-cases ("high" == s)) [
    | inl e ↦ subst IsOne ((eq_iff _ _).0 e) refl
    | inr n2 ↦ elim (Bool-cases ("medium" == s)) [
      | inl e ↦ subst IsOne ((eq_iff _ _).0 e) refl
      | inr n3 ↦ elim (Bool-cases ("low" == s)) [
        | inl e ↦ subst IsOne ((eq_iff _ _).0 e) refl
        | inr n4 ↦ elim (Bool-cases ("info" == s)) [
          | inl e ↦ subst IsOne ((eq_iff _ _).0 e) refl
          | inr n5 ↦ absurd (ground arith)
        ]
      ]
    ]
  ]
]

by-cons :
    (sev : String) (a : Alert) (alerts : List Alert)
    → by sev (a ∷ alerts) ≡ hit a.severity sev + by sev alerts
by-cons sev a alerts = ground arith

sum_of_counts :
    (alerts : List Alert)
    → IsClassified alerts
    → by "critical" alerts
        + by "high" alerts
        + by "medium" alerts
        + by "low" alerts
        + by "info" alerts
      ≡ length alerts
sum_of_counts [] h = omega arith
sum_of_counts (a ∷ alerts) (c, cs) = omega (
  arith,
  hits-IsOne a.severity c,
  sum_of_counts alerts cs,
  by-cons "critical" a alerts,
  by-cons "high" a alerts,
  by-cons "medium" a alerts,
  by-cons "low" a alerts,
  by-cons "info" a alerts,
)

disjoint_counts :
    (alerts : List Alert)
    → count_where (λ a. a.status == "open") alerts
        + count_where (λ a. a.status == "resolved") alerts
      ≤ length alerts
disjoint_counts [] = omega arith
disjoint_counts (a ∷ alerts) = ground (
  arith,
  disjoint_counts alerts,
  eq_iff a.status "open",
  eq_iff a.status "resolved",
  open_ne_resolved,
)
  where
    open_ne_resolved : ◌≢◌ {A = String} "open" "resolved"
    open_ne_resolved = ground (arith, eq_iff "open" "resolved")

-- Where each stored alert has one of the five severities, the counts by severity add up to the
-- total; and the open and the resolved alerts together are never more than the total.
pub get_alert_stats_sums :
    (sec : Security) (pydantic : Pydantic) (T : Table Alert) (user : User) (s : T.Store)
    → IsClassified (T.rows s)
    → (stats : AlertStats) × (get_alert_stats sec pydantic T (ok user) s ≡ ok stats)
      × (stats.critical + stats.high + stats.medium + stats.low + stats.info ≡ stats.total)
      × (stats.open_count + stats.resolved_count ≤ stats.total)
unfolding get_alert_stats
get_alert_stats_sums sec pydantic T user s classified =
    (_, refl, sum_of_counts (T.rows s) classified, disjoint_counts (T.rows s))
