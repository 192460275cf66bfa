-- ===== src/Generation/Registry/Safety.antt =====
-- The registry under interleavings of its critical sections.
use porsche.Prelude.{
  ℕ, zero, suc, ◌+◌, String, ◌≡◌, refl, Bool, true, false, Option, none, some, List, [], ◌∷◌, ◌++◌,
  arith, if◌then◌else◌, Option-cases, inl, inr,
}
use porsche.Prelude.Int.{ℤ}
use porsche.Generation.Registry.Entries.{Key, Entry, find, insert, invoke_all}
use porsche.Generation.Registry.{
  open_drain, closed_drain, World, is_idle, begin_admission, release, flag, set_flag,
  register_check, register_commit, cancel, unregister, close, Op, begins, releases_at, checks,
  commits, cancels, unregisters, closes, step, run, start, forget, Ends, Ends-some, run-Ends,
}

-- Release functions that have not been called.
unfoldable pub unset : List Bool → ℕ
unset [] = 0
unset (b ∷ bs) = (if b then 0 else 1) + unset bs

pub record Inv (w : World) : Type 0 where
  pub held : unset w.releases ≡ w.admissions
  pub busy : is_idle w.entries w.admissions ≡ false → w.drained ≡ open_drain
  pub idle : is_idle w.entries w.admissions ≡ true → w.drained ≡ closed_drain

unset-append : (bs : List Bool) → unset (bs ++ false ∷ []) ≡ suc (unset bs)
unfolding unset
unset-append [] = omega arith
unset-append (b ∷ bs) = omega (arith, unset-append bs)

unset-set_flag :
    (i : ℕ) (bs : List Bool) → flag i bs ≡ false → suc (unset (set_flag i bs)) ≡ unset bs
unfolding unset flag set_flag
unset-set_flag i [] h = cc
unset-set_flag zero (b ∷ bs) h = ground arith
unset-set_flag (suc i) (b ∷ bs) h = omega (arith, unset-set_flag i bs h)

is_idle-insert : (x : Entry) (es : List Entry) (n : ℕ) → is_idle (insert x es) n ≡ false
unfolding insert
is_idle-insert x [] n = refl
is_idle-insert x (e ∷ es) n = ground arith

is_idle-invoke_all : (es : List Entry) (n : ℕ) → is_idle (invoke_all es).0 n ≡ is_idle es n
unfolding invoke_all
is_idle-invoke_all [] n = refl
is_idle-invoke_all (e ∷ es) n = ground arith

is_idle-found :
    (k : Key) (es : List Entry) (e : Entry) (n : ℕ) → find k es ≡ some e → is_idle es n ≡ false
unfolding find
is_idle-found k [] e n h = cc
is_idle-found k (x ∷ es) e n h = refl

-- A section goes through and keeps the invariant.
abbrev Safe : Option World → Type 0
Safe = Ends Inv

pub start-Inv : Inv start
unfolding unset
start-Inv = ground arith

begin_admission-Safe : (w : World) → Inv w → Safe (forget (begin_admission w))
unfolding begin_admission
begin_admission-Safe w v = ground (arith, unset-append w.releases)

release-Safe : (i : ℕ) (w : World) → Inv w → Safe (forget (release i w))
unfolding release
release-Safe i w v = ground (arith, unset-set_flag i w.releases)

register_check-Safe :
    (u : ℤ) (g : String) (c : Option ℕ) (w : World) → Inv w → Safe (forget (register_check u g c w))
unfolding register_check
register_check-Safe u g none w v = v
register_check-Safe u g (some c) w v = ground arith

register_commit-Safe :
    (u : ℤ) (g : String) (c : ℕ) (t : String) (w : World)
    → Inv w
    → Safe (forget (register_commit u g c t w))
unfolding register_commit
register_commit-Safe u g c t w v = ground (
  arith,
  is_idle-insert
      (record {
        key = record { user_id = u; generation_id = g };
        token = t;
        cancel = c;
        invoked = false;
      })
      w.entries w.admissions,
)

cancel-Safe : (u : ℤ) (g : String) (w : World) → Inv w → Safe (forget (cancel u g w))
unfolding cancel
cancel-Safe u g w v =
    elim (Option-cases (find (record { user_id = u; generation_id = g }) w.entries)) [
      | inl p ↦ ground (arith, p)
      | inr (e, p) ↦ ground (
        arith,
        p,
        is_idle-insert (record e { invoked = true }) w.entries w.admissions,
        is_idle-found (record { user_id = u; generation_id = g }) w.entries e w.admissions p,
      )
    ]

unregister-Safe :
    (u : ℤ) (g t : String) (b : Bool) (w : World) → Inv w → Safe (forget (unregister u g t b w))
unfolding unregister
unregister-Safe u g t b w v =
    elim (Option-cases (find (record { user_id = u; generation_id = g }) w.entries)) [
      | inl p ↦ ground (arith, p)
      | inr (e, p) ↦ ground (
        arith,
        p,
        is_idle-found (record { user_id = u; generation_id = g }) w.entries e w.admissions p,
      )
    ]

close-Safe : (w : World) → Inv w → Safe (forget (close w))
unfolding close
close-Safe w v = ground (arith, is_idle-invoke_all w.entries w.admissions)

pub step-Safe : (o : Op) (w : World) → Inv w → Safe (step o w)
unfolding step
step-Safe begins w v = begin_admission-Safe w v
step-Safe (releases_at i) w v = release-Safe i w v
step-Safe (checks u g c) w v = register_check-Safe u g c w v
step-Safe (commits u g c t) w v = register_commit-Safe u g c t w v
step-Safe (cancels u g) w v = cancel-Safe u g w v
step-Safe (unregisters u g t b) w v = unregister-Safe u g t b w v
step-Safe closes w v = close-Safe w v

-- Whatever the sections and their order, an execution from a new registry runs through without a
-- panic, and in its end the number of outstanding release functions is the number of admissions and
-- the drain is open while something is admitted or registered, closed otherwise.
pub run_never_panics : (os : List Op) → (w : World) × (run os start ≡ some w) × Inv w
run_never_panics os = Ends-some Inv (run os start) (run-Ends Inv step-Safe os start start-Inv)
