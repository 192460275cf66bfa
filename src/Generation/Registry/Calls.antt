-- ===== src/Generation/Registry/Calls.antt =====
-- The calls of the registered callbacks, counted.
use porsche.Prelude.{
  ℕ, ◌+◌, ◌≤◌, String, ◌≡◌, refl, Bool, true, false, Option, none, some, List, [], ◌∷◌, ◌++◌, arith,
  if◌then◌else◌, ◌==◌, Option-cases, inl, inr, subst,
}
use porsche.Prelude.Int.{ℤ}
use porsche.Generation.Registry.Entries.{
  Key, Entry, find, insert, remove, invoke_all, keys_eq_iff, count, pending,
}
use porsche.Generation.Registry.{
  World, begin_admission, release, register_check, register_commit, cancel, unregister, close, Op,
  begins, releases_at, checks, commits, cancels, unregisters, closes, step, run, start, forget,
  continue-some,
}

-- How often a section, an execution, registers the callback.
abbrev pub registers : ℕ → Op → ℕ
registers c (commits u g x t) = if x == c then 1 else 0
registers c _ = 0

abbrev pub registered : ℕ → List Op → ℕ
registered c [] = 0
registered c (o ∷ os) = registers c o + registered c os

abbrev once : ℕ → ℕ → ℕ
once x c = if x == c then 1 else 0

-- Calls made and calls still owed.
abbrev pub owed : ℕ → World → ℕ
owed c w = count c w.calls + pending c w.entries

count-append : (c : ℕ) (xs ys : List ℕ) → count c (xs ++ ys) ≡ count c xs + count c ys
unfolding count
count-append c [] ys = omega arith
count-append c (x ∷ xs) ys = omega (arith, count-append c xs ys)

count-one : (c x : ℕ) → count c (x ∷ []) ≡ once x c
unfolding count
count-one c x = ground arith

pub find-key : (k : Key) (es : List Entry) (e : Entry) → find k es ≡ some e → e.key ≡ k
unfolding find
find-key k [] e h = cc
find-key k (x ∷ es) e h = ground (arith, keys_eq_iff x.key k, find-key k es e)

pending-insert :
    (c : ℕ) (x : Entry) (es : List Entry)
    → pending c (insert x es) ≤ (if x.invoked then 0 else once x.cancel c) + pending c es
unfolding pending insert
pending-insert c x [] = ground arith
pending-insert c x (e ∷ es) = ground (arith, pending-insert c x es)

pending-invoke :
    (c : ℕ) (k : Key) (es : List Entry) (e : Entry)
    → find k es ≡ some e
    → e.invoked ≡ false
    → pending c (insert (record e { invoked = true }) es) + once e.cancel c ≡ pending c es
unfolding pending insert find
pending-invoke c k [] e h n = cc
pending-invoke c k (x ∷ es) e h n = ground (arith, find-key k (x ∷ es) e h, pending-invoke c k es e)

pending-remove : (c : ℕ) (k : Key) (es : List Entry) → pending c (remove k es) ≤ pending c es
unfolding pending remove
pending-remove c k [] = omega arith
pending-remove c k (e ∷ es) = ground (arith, pending-remove c k es)

pub pending-invoke_all :
    (c : ℕ) (es : List Entry)
    → (pending c (invoke_all es).0 ≡ 0) × (count c (invoke_all es).1 ≡ pending c es)
unfolding pending invoke_all count
pending-invoke_all c [] = (refl, refl)
pending-invoke_all c (e ∷ es) = ground (arith, pending-invoke_all c es)

-- What a section may add to the calls made and owed.
abbrev Grows : ℕ → ℕ → World → World → Type 0
Grows c n w w' = owed c w' ≤ n + owed c w

abbrev Gains : ℕ → ℕ → World → Option World → Type 0
Gains c n w none = Unit
Gains c n w (some w') = Grows c n w w'

begin_admission-Gains : (c : ℕ) (w : World) → Gains c 0 w (forget (begin_admission w))
unfolding begin_admission
begin_admission-Gains c w = ground arith

release-Gains : (c i : ℕ) (w : World) → Gains c 0 w (forget (release i w))
unfolding release
release-Gains c i w = ground arith

register_check-Gains :
    (c : ℕ) (u : ℤ) (g : String) (x : Option ℕ) (w : World)
    → Gains c 0 w (forget (register_check u g x w))
unfolding register_check
register_check-Gains c u g none w = omega arith
register_check-Gains c u g (some x) w = ground arith

register_commit-Gains :
    (c : ℕ) (u : ℤ) (g : String) (x : ℕ) (t : String) (w : World)
    → Gains c (once x c) w (forget (register_commit u g x t w))
unfolding register_commit
register_commit-Gains c u g x t w = ground (
  arith,
  pending-insert c
      (record {
        key = record { user_id = u; generation_id = g };
        token = t;
        cancel = x;
        invoked = false;
      })
      w.entries,
)

cancel-Gains : (c : ℕ) (u : ℤ) (g : String) (w : World) → Gains c 0 w (forget (cancel u g w))
unfolding cancel
cancel-Gains c u g w =
    elim (Option-cases (find (record { user_id = u; generation_id = g }) w.entries)) [
      | inl p ↦ ground (arith, p)
      | inr (e, p) ↦ ground (
        arith,
        p,
        pending-invoke c (record { user_id = u; generation_id = g }) w.entries e p,
        count-append c w.calls (e.cancel ∷ []),
        count-one c e.cancel,
      )
    ]

unregister-Gains :
    (c : ℕ) (u : ℤ) (g t : String) (b : Bool) (w : World)
    → Gains c 0 w (forget (unregister u g t b w))
unfolding unregister
unregister-Gains c u g t b w =
    elim (Option-cases (find (record { user_id = u; generation_id = g }) w.entries)) [
      | inl p ↦ ground (arith, p)
      | inr (e, p) ↦
          ground (arith, p, pending-remove c (record { user_id = u; generation_id = g }) w.entries)
    ]

close-Gains : (c : ℕ) (w : World) → Gains c 0 w (forget (close w))
unfolding close
close-Gains c w =
    ground (arith, pending-invoke_all c w.entries, count-append c w.calls (invoke_all w.entries).1)

step-Gains : (c : ℕ) (o : Op) (w : World) → Gains c (registers c o) w (step o w)
unfolding step
step-Gains c begins w = begin_admission-Gains c w
step-Gains c (releases_at i) w = release-Gains c i w
step-Gains c (checks u g x) w = register_check-Gains c u g x w
step-Gains c (commits u g x t) w = register_commit-Gains c u g x t w
step-Gains c (cancels u g) w = cancel-Gains c u g w
step-Gains c (unregisters u g t b) w = unregister-Gains c u g t b w
step-Gains c closes w = close-Gains c w

step-Grows : (c : ℕ) (o : Op) (w w' : World) → step o w ≡ some w' → Grows c (registers c o) w w'
step-Grows c o w w' p = subst (Gains c (registers c o) w) p (step-Gains c o w)

run-Grows :
    (c : ℕ) (os : List Op) (w w' : World) → run os w ≡ some w' → Grows c (registered c os) w w'
unfolding run
run-Grows c [] w w' p = ground arith
run-Grows c (o ∷ os) w w' p =
    let (w₁, first, rest) = continue-some (run os) (step o w) p in
    omega (arith, step-Grows c o w w₁ first, run-Grows c os w₁ w' rest)

-- In every execution from a new registry a callback is called at most as often as it was offered
-- for registration, the calls still owed to registered entries included: so one that is registered
-- once is called at most once, however cancellations and the shutdown interleave.
pub calls-le-registered :
    (c : ℕ) (os : List Op) (w : World)
    → run os start ≡ some w
    → count c w.calls + pending c w.entries ≤ registered c os
unfolding count pending
calls-le-registered c os w p = omega (arith, run-Grows c os start w p)
