-- ===== src/Billing/Quota.antt =====
-- The daily quota of internal/service/billing.go, between the check and what is shown.
use porsche.Prelude.{
  ℕ, zero, suc, ◌+◌, ◌-◌, ◌≤◌, ◌<◌, ◌≡◌, ◌⊎◌, inl, inr, refl, true, some, arith, ok, err, String,
  Bool-cases, eq_iff, ltb, subst, Option-cases,
}
use porsche.Prelude.Int.{ℤ, pos}
use porsche.Billing.{
  Account, free, too_many, check_and_consume, remaining_calls, reset_daily, consume_today, same_day,
  at_least_zero, plus, minus, wrapped, charged,
}

-- The calls of the account were last counted on the day of this time.
abbrev pub IsCurrent : (ℤ → String) → ℤ → Account → Type 0
IsCurrent day now u = (at : ℤ) × (u.daily_calls_reset_at ≡ some at) × (day at ≡ day now)

-- The calls used on the day of this time: those that are counted, or none on another day.
abbrev pub IsUsedToday : (ℤ → String) → ℤ → Account → ℕ → Type 0
IsUsedToday day now u today =
    (IsCurrent day now u × (u.daily_calls_used ≡ pos today))
    ⊎ ((¬ IsCurrent day now u) × (today ≡ 0))

-- An account of the free plan, with its limit and the calls that it has used today.
pub record IsFree (day : ℤ → String) (now : ℤ) (limit used : ℕ) (u : Account) : Type 0 where
  pub on_free : u.plan_type ≡ free
  pub limited : u.daily_call_limit ≡ pos limit
  pub counted : u.daily_calls_used ≡ pos used
  pub current : IsCurrent day now u

plus_fits : (a b : ℕ) → a + b < 9223372036854775808 → plus (pos a) (pos b) ≡ pos (a + b)
unfolding wrapped
plus_fits a b h = ground arith

module _ (day : ℤ → String) (now : ℤ) where
  minus_left :
      (a b : ℕ)
      → a < 9223372036854775808
      → b < 9223372036854775808
      → at_least_zero day (minus (pos a) (pos b)) ≡ pos (a - b)
  unfolding wrapped
  minus_left a zero h k = ground arith
  minus_left a (suc b) h k = ground arith

  same_day-IsCurrent :
      (u : Account) → same_day day u.daily_calls_reset_at now ≡ true → IsCurrent day now u
  same_day-IsCurrent u h = elim (Option-cases u.daily_calls_reset_at) [
    | inl p ↦ absurd (ground (arith, p, h))
    | inr (at, p) ↦ (at, p, (eq_iff (day at) (day now)).0 (ground (arith, p, h)))
  ]

  IsCurrent-same_day :
      (u : Account) → IsCurrent day now u → same_day day u.daily_calls_reset_at now ≡ true
  IsCurrent-same_day u (at, p, q) = ground (arith, p, q, eq_iff (day at) (day now))

  reset_daily-IsFree :
      (limit used : ℕ) (u : Account)
      → u.plan_type ≡ free
      → u.daily_call_limit ≡ pos limit
      → u.daily_calls_used ≡ pos used
      → (today : ℕ) × (today ≤ used)
        × IsUsedToday day now u today
        × IsFree day now limit today (reset_daily day now u)
  unfolding reset_daily
  reset_daily-IsFree limit used u f l n =
      elim (Bool-cases (same_day day u.daily_calls_reset_at now)) [
        | inl p ↦
            let c = same_day-IsCurrent u p in
            let same : u ≡ reset_daily day now u = ground (arith, p) in
            (
              used,
              ground arith,
              inl (c, n),
              subst (IsFree day now limit used) same
                  (record { on_free = f; limited = l; counted = n; current = c }),
            )
        | inr p ↦
            let reset = record u { daily_calls_used = pos 0; daily_calls_reset_at = some now } in
            let same : reset ≡ reset_daily day now u = ground (arith, p) in
            (
              0,
              ground arith,
              inr ((λ c. let q = IsCurrent-same_day u c in ground (arith, p, q)), refl),
              subst (IsFree day now limit 0) same (record {
                on_free = f;
                limited = l;
                counted = refl;
                current = (now, refl, refl);
              }),
            )
      ]

  remaining_calls-IsFree :
      (limit used : ℕ) (u : Account)
      → limit < 9223372036854775808
      → used < 9223372036854775808
      → IsFree day now limit used (reset_daily day now u)
      → remaining_calls day now u ≡ pos (limit - used)
  unfolding remaining_calls
  remaining_calls-IsFree limit used u h k v =
      ground (arith, v.on_free, v.limited, v.counted, minus_left limit used h k)

  reset_daily-current :
      (limit used : ℕ) (u : Account)
      → IsFree day now limit used u
      → IsFree day now limit used (reset_daily day now u)
  unfolding reset_daily
  reset_daily-current limit used u v =
      let p = IsCurrent-same_day u v.current in
      let same : u ≡ reset_daily day now u = ground (arith, p) in
      subst (IsFree day now limit used) same v

  -- The charge of an account that is current.
  consume_today-IsFree :
      (limit used count : ℕ) (u : Account)
      → used + count < 9223372036854775808
      → IsFree day now limit used u
      → ((used + count ≤ limit)
          × (u' : Account) × (consume_today day (pos count) u ≡ ok (some u'))
          × IsFree day now limit (used + count) u')
        ⊎ ((limit < used + count) × (consume_today day (pos count) u ≡ err too_many))
  consume_today-IsFree limit used count u h v =
      let e = plus_fits used count h in
      elim (Bool-cases (ltb limit (used + count))) [
        | inl p ↦ inr (ground (arith, p), ground (arith, v.on_free, v.limited, v.counted, e, p))
        | inr p ↦ inl (
          ground (arith, p),
          charged day (pos count) u,
          ground (arith, v.on_free, v.limited, v.counted, e, p),
          record {
            on_free = v.on_free;
            limited = v.limited;
            counted = ground (arith, v.counted, e);
            current = v.current;
          },
        )
      ]

-- On the free plan, where the limit and the calls used are not negative and the calls used, with
-- those asked for, fit in an int: `GetUsageStats` shows the limit less the calls used today, or 0 if
-- that is negative. No more calls than it shows are charged: they are added to those used today, the
-- plan and the limit stay, and it then shows as many less. More calls are refused.
pub check_and_consume-remaining :
    (day : ℤ → String) (now : ℤ) (limit used count : ℕ) (u : Account)
    → u.plan_type ≡ free
    → u.daily_call_limit ≡ pos limit
    → u.daily_calls_used ≡ pos used
    → 0 < count
    → limit < 9223372036854775808
    → used + count < 9223372036854775808
    → (today : ℕ) × IsUsedToday day now u today
      × (remaining_calls day now u ≡ pos (limit - today))
      × (((count ≤ limit - today)
            × (u' : Account) × (check_and_consume day now (pos count) u ≡ ok (some u'))
            × IsFree day now limit (today + count) u'
            × (remaining_calls day now u' ≡ pos (limit - today - count)))
          ⊎ ((limit - today < count) × (check_and_consume day now (pos count) u ≡ err too_many)))
unfolding check_and_consume
check_and_consume-remaining day now limit used count u f l n some_calls h k =
    let (today, fewer, t, v) = reset_daily-IsFree day now limit used u f l n in
    let shown = remaining_calls-IsFree day now limit today u h (ground arith) v in
    (
      today,
      t,
      shown,
      elim (consume_today-IsFree day now limit today count (reset_daily day now u) (ground arith)
          v) [
            | inl (p, u', e, w) ↦
                let later =
                  remaining_calls-IsFree day now limit (today + count) u' h (ground arith)
                    (reset_daily-current day now limit (today + count) u' w) in
                inl (ground arith, u', ground (arith, e), w, ground (arith, later))
            | inr (p, e) ↦ inr (ground arith, ground (arith, e))
          ],
    )
