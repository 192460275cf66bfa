-- ===== src/Billing/Samples.antt =====
-- The theorem on the daily quota at concrete values.
use porsche.Prelude.{ℕ, ◌+◌, ◌-◌, ◌≤◌, ◌<◌, ◌≡◌, refl, ◌⊎◌, some, ok, err, String, arith}
use porsche.Prelude.Int.{ℤ, pos}
use porsche.Billing.{Account, free, too_many, check_and_consume, remaining_calls}
use porsche.Billing.Quota.{IsUsedToday, IsFree, check_and_consume-remaining}

-- 98 of 100 calls are used on the only day that there is.
abbrev nearly_spent : Account
nearly_spent = record {
  plan_type = free;
  daily_call_limit = pos 100;
  daily_calls_used = pos 98;
  daily_calls_reset_at = some (pos 1);
}

abbrev today : ℤ → String
today at = "2026-01-01"

check_and_consume-remaining_example :
    (used : ℕ) × IsUsedToday today (pos 5) nearly_spent used
    × (remaining_calls today (pos 5) nearly_spent ≡ pos (100 - used))
    × (((3 ≤ 100 - used)
          × (u' : Account) × (check_and_consume today (pos 5) (pos 3) nearly_spent ≡ ok (some u'))
          × IsFree today (pos 5) 100 (used + 3) u'
          × (remaining_calls today (pos 5) u' ≡ pos (100 - used - 3)))
        ⊎ ((100 - used < 3)
            × (check_and_consume today (pos 5) (pos 3) nearly_spent ≡ err too_many)))
check_and_consume-remaining_example =
    check_and_consume-remaining today (pos 5) 100 98 3 nearly_spent refl refl refl (ground arith)
      (ground arith) (ground arith)
