-- ===== src/Billing.antt =====
-- internal/service/billing.go: the daily quota of calls. A day is the text that `Format` makes of a
-- time, a parameter; the account is the row that the caller has read.
mod Quota
mod Samples
use porsche.Prelude.{
  ℕ, ◌+◌, ◌-◌, ◌%◌, ◌^◌, zero, suc, String, Bool, true, false, not, ◌&&◌, ◌||◌, Option, none, some,
  List, [], ◌∷◌, str_eq, ltb, if◌then◌else◌, Result, ok, err,
}
use porsche.Prelude.Int.{ℤ, pos, negsuc, leb_ℤ, ltb_ℤ}

-- `models.PlanType`; `unknown` are the integers of no constant.
pub data PlanType : Type 0 where
  free professional enterprise unknown : PlanType

-- `models.User`, what billing reads of it.
pub record Account : Type 0 where
  pub plan_type : PlanType
  pub daily_call_limit : ℤ
  pub daily_calls_used : ℤ
  pub daily_calls_reset_at : Option ℤ

pub data BillingError : Type 0 where
  too_many : BillingError

abbrev sum : ℤ → ℤ → ℤ
sum (pos a) (pos b) = pos (a + b)
sum (pos a) (negsuc b) = if ltb b a then pos (a - suc b) else negsuc (b - a)
sum (negsuc a) (pos b) = if ltb a b then pos (b - suc a) else negsuc (a - b)
sum (negsuc a) (negsuc b) = negsuc (suc (a + b))

abbrev negated : ℤ → ℤ
negated (pos zero) = pos 0
negated (pos (suc n)) = negsuc n
negated (negsuc n) = pos (suc n)

abbrev upper : ℕ → ℤ
upper low = if ltb low (2 ^ 63) then pos low else negsuc (2 ^ 64 - 1 - low)

abbrev lower : ℕ → ℤ
lower low = if ltb low (2 ^ 63) then negsuc low else pos (2 ^ 64 - 1 - low)

-- The value of Go's `int`, of 64 bits, to which a number wraps around.
unfoldable pub wrapped : ℤ → ℤ
wrapped (pos n) = upper (n % 2 ^ 64)
wrapped (negsuc n) = lower (n % 2 ^ 64)

-- `left + right` and `left - right`.
abbrev pub plus : ℤ → ℤ → ℤ
unfolding wrapped
plus a b = wrapped (sum a b)

abbrev pub minus : ℤ → ℤ → ℤ
unfolding wrapped
minus a b = wrapped (sum a (negated b))

module _ (day : ℤ → String) where
  abbrev pub same_day : Option ℤ → ℤ → Bool
  same_day none now = false
  same_day (some at) now = str_eq (day at) (day now)

  -- `ResetDailyIfNeeded`.
  unfoldable pub reset_daily : ℤ → Account → Account
  reset_daily now u =
      if same_day u.daily_calls_reset_at now
      then u
      else record u { daily_calls_used = pos 0; daily_calls_reset_at = some now }

  abbrev pub is_paid : PlanType → Bool
  is_paid professional = true
  is_paid enterprise = true
  is_paid _ = false

  abbrev pub charged : ℤ → Account → Account
  charged count u = record u { daily_calls_used = plus u.daily_calls_used count }

  abbrev pub consume_today : ℤ → Account → Result BillingError (Option Account)
  consume_today count u =
      if is_paid u.plan_type
      then ok (some (charged count u))
      else if ltb_ℤ u.daily_call_limit (plus u.daily_calls_used count)
      then err too_many
      else ok (some (charged count u))

  -- `CheckAndConsumeCall`: the row that it saves, if it saves one.
  unfoldable pub check_and_consume : ℤ → ℤ → Account → Result BillingError (Option Account)
  unfolding reset_daily
  check_and_consume now count u =
      if ltb_ℤ count (pos 1) then ok none else consume_today count (reset_daily now u)

  abbrev is_free : PlanType → Bool
  is_free free = true
  is_free _ = false

  abbrev pub at_least_zero : ℤ → ℤ
  at_least_zero z = if ltb_ℤ z (pos 0) then pos 0 else z

  -- `remaining_daily_calls` of `GetUsageStats`.
  unfoldable pub remaining_calls : ℤ → Account → ℤ
  unfolding reset_daily
  remaining_calls now u =
      let today = reset_daily now u in
      if is_free today.plan_type
      then at_least_zero (minus today.daily_call_limit today.daily_calls_used)
      else pos 999999
