-- ===== src/Api/Bounds.antt =====
-- The numbers of the interface: the summary of insights, and the log lines of the child module.
pub mod Logs
use beaverdeck.Base.{
  ℕ, suc, ◌+◌, ◌≤◌, ◌≡◌, refl, true, false, not, List, [], ◌∷◌, length, all, Bool-cases, inl, inr,
  arith,
}
use beaverdeck.Text.{Str, codes, ◌==◌, mem}
use beaverdeck.Api.Calls.{InsightAlert}
use beaverdeck.Api.Insights.{Counters, no_counts, mark_suppressed, count_alert, count_alerts}

-- The sums of the counters after some items.
abbrev AddUp : Counters → ℕ → Type 0
AddUp c n = (c.alerts + c.passing ≡ n) × (c.active + c.suppressed ≡ c.alerts)

count_alert-AddUp :
    (keys : List Str) (item : InsightAlert) (c : Counters) (n : ℕ)
    → item.suppressed ≡ false
    → AddUp c n
    → AddUp (count_alert keys item c) (suc n)
unfolding count_alert mark_suppressed
count_alert-AddUp keys item c n fresh (all_, alerts) =
    elim (Bool-cases (item.status == codes "alert")) [
      | inr passing ↦ rw passing (omega (arith, all_), ground (arith, alerts))
      | inl alert ↦ rw alert (elim (Bool-cases (mem item.key keys)) [
        | inl marked ↦ rw marked (omega (arith, all_), omega (arith, alerts))
        | inr unmarked ↦ rw (unmarked, fresh) (omega (arith, all_), omega (arith, alerts))
      ])
    ]

count_alerts-AddUp :
    (keys : List Str) (found : List InsightAlert) (c : Counters) (n : ℕ)
    → all (λ item. not item.suppressed) found ≡ true
    → AddUp c n
    → AddUp (count_alerts keys c found) (n + length found)
unfolding count_alerts all
count_alerts-AddUp keys [] c n fresh (total, alerts) = (omega (arith, total), alerts)
count_alerts-AddUp keys (item ∷ rest) c n fresh h =
    let after =
      count_alerts-AddUp keys rest (count_alert keys item c) (suc n) (ground (arith, fresh))
        (count_alert-AddUp keys item c n (ground (arith, fresh)) h) in
    (omega (arith, after.0), after.1)

-- The summary of insights that come unsuppressed adds up: alerts and passing ones are all, and the
-- active and the suppressed ones are the alerts.
pub count_alerts-adds_up :
    (keys : List Str) (found : List InsightAlert)
    → all (λ item. not item.suppressed) found ≡ true
    → let c = count_alerts keys no_counts found in
      (c.alerts + c.passing ≡ length found) × (c.active + c.suppressed ≡ c.alerts)
count_alerts-adds_up keys found fresh =
    let after = count_alerts-AddUp keys found no_counts 0 fresh (refl, refl) in
    (omega (arith, after.0), after.1)
