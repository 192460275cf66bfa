-- ===== src/Generation/Registry.antt =====
-- internal/service/platform_generation_cancel_registry.go: cancel callbacks of the running
-- generations of this process, and the drain that a shutdown waits for.
--
-- Each function is one critical section under the registry's mutex, so an execution is any sequence
-- of them. `Register` is two sections, `register_check` and `register_commit`, with the entropy
-- read between them. The channel `drained` is not made, open or closed; closing one that is not open
-- is Go's panic. A release function guards itself by a `sync.Once`: its flag stands in `releases` at
-- the index that `begin_admission` returns. `calls` collects the callbacks that were called, in
-- order. Entropy and base64 are not of this repository: a registration token is an argument, and so
-- is the test of a token's form.
mod Entries
pub mod Safety
pub mod Calls
pub mod Shutdown
pub use Entries.{Key, Entry, keys_eq_iff, NoKey, Distinct}
unfoldable pub use Entries.{keys_eq, find, insert, remove, invoke_all, pending, count}
use porsche.Prelude.{
  ℕ, zero, suc, ◌+◌, ◌-◌, String, Bool, true, false, not, ◌&&◌, ◌||◌, Option, none, some, List, [],
  ◌∷◌, ◌++◌, str_eq, ◌==◌, ◌≡◌, refl, if◌then◌else◌, length, Result, ok, err,
}
use porsche.Prelude.Int.{ℤ}
use porsche.Generation.Identity.{valid_identity}

pub data Drain : Type 0 where
  unmade open_drain closed_drain : Drain

pub record Registry : Type 0 where
  pub entries : List Entry
  pub closed : Bool
  pub admissions : ℕ
  pub drained : Drain

pub record World : Type 0 where
  pub registry : Registry
  pub open registry use *
  pub releases : List Bool
  pub calls : List ℕ

pub data RegistryError : Type 0 where
  invalid conflict unavailable : RegistryError

-- `none` is a panic.
abbrev pub Step : Type 0 → Type 0
Step A = Option (World × A)

abbrev pub with_registry : World → Registry → World
with_registry w r = record { registry = r; releases = w.releases; calls = w.calls }

-- `newPlatformGenerationCancellationRegistryFrom`.
abbrev pub new_registry : Registry
new_registry = record { entries = []; closed = false; admissions = 0; drained = closed_drain }

-- `drainLocked` makes a closed channel where there is none.
abbrev pub drain_locked : Drain → Drain
drain_locked unmade = closed_drain
drain_locked open_drain = open_drain
drain_locked closed_drain = closed_drain

abbrev pub prepare : Registry → Registry
prepare r = record {
  entries = r.entries;
  closed = r.closed;
  admissions = r.admissions;
  drained = drain_locked r.drained;
}

-- `close(r.drained)`.
abbrev pub close_drain : Drain → Option Drain
close_drain open_drain = some closed_drain
close_drain unmade = none
close_drain closed_drain = none

abbrev pub is_idle : List Entry → ℕ → Bool
is_idle [] n = n == 0
is_idle (_ ∷ _) n = false

unfoldable pub begin_admission : World → Step (Result RegistryError ℕ)
begin_admission w =
    let r = prepare w.registry in
    if r.closed
    then some (with_registry w r, err unavailable)
    else let drain = if is_idle r.entries r.admissions then open_drain else r.drained in
      some (
        record {
          registry = record r { admissions = suc r.admissions; drained = drain };
          releases = w.releases ++ false ∷ [];
          calls = w.calls;
        },
        ok (length w.releases),
      )

abbrev shut : Registry → Option Drain → Option Registry
shut r none = none
shut r (some d) = some (record r { drained = d })

unfoldable pub release_admission : Registry → Option Registry
release_admission r =
    if r.admissions == 0
    then some r
    else let r' = record r { admissions = r.admissions - 1 } in
      if is_idle r'.entries r'.admissions then shut r' (close_drain r'.drained) else some r'

-- The flag of a release function, set by its first call.
unfoldable pub flag : ℕ → List Bool → Bool
flag i [] = true
flag zero (b ∷ bs) = b
flag (suc i) (b ∷ bs) = flag i bs

unfoldable pub set_flag : ℕ → List Bool → List Bool
set_flag i [] = []
set_flag zero (b ∷ bs) = true ∷ bs
set_flag (suc i) (b ∷ bs) = b ∷ set_flag i bs

abbrev put_registry : World → List Bool → Option Registry → Step (Unit {0})
put_registry w flags none = none
put_registry w flags (some r) =
    some (record { registry = r; releases = flags; calls = w.calls }, tt)

-- The function that `begin_admission` returned as number i.
unfoldable pub release : ℕ → World → Step (Unit {0})
unfolding release_admission
release i w =
    if flag i w.releases
    then some (w, tt)
    else put_registry w (set_flag i w.releases) (release_admission w.registry)

abbrev exists : Option Entry → Bool
exists none = false
exists (some _) = true

unfoldable pub register_check :
    ℤ → String → Option ℕ → World → Step (Result RegistryError (Unit {0}))
register_check user_id generation_id none w = some (w, err invalid)
register_check user_id generation_id (some cancel) w =
    if not (valid_identity user_id generation_id)
    then some (w, err invalid)
    else let r = prepare w.registry in
      let k : Key = record { user_id = user_id; generation_id = generation_id } in
      if r.closed
      then some (with_registry w r, err unavailable)
      else if exists (find k r.entries)
      then some (with_registry w r, err conflict)
      else some (with_registry w r, ok tt)

unfoldable pub register_commit :
    ℤ → String → ℕ → String → World → Step (Result RegistryError String)
unfolding insert
register_commit user_id generation_id cancel token w =
    let r = prepare w.registry in
    let k : Key = record { user_id = user_id; generation_id = generation_id } in
    if r.closed
    then some (with_registry w r, err unavailable)
    else if exists (find k r.entries)
    then some (with_registry w r, err conflict)
    else let drain = if is_idle r.entries r.admissions then open_drain else r.drained in
      let entry : Entry = record { key = k; token = token; cancel = cancel; invoked = false } in
      some
        (with_registry w (record r { entries = insert entry r.entries; drained = drain }), ok token)

-- `Register` with nothing between its two sections; `token` is what the entropy source gave.
unfoldable pub register :
    ℤ → String → Option ℕ → Option String → World → Step (Result RegistryError String)
unfolding register_check register_commit
register user_id generation_id none token w = some (w, err invalid)
register user_id generation_id (some cancel) token w =
    elim (register_check user_id generation_id (some cancel) w) [
      | none ↦ none
      | some (w', err e) ↦ some (w', err e)
      | some (w', ok _) ↦ elim token [
        | none ↦ some (w', err unavailable)
        | some t ↦ register_commit user_id generation_id cancel t w'
      ]
    ]

abbrev invoke : World → Option Entry → Step Bool
invoke w none = some (w, false)
invoke w (some entry) =
    if entry.invoked
    then some (w, false)
    else some (
      record {
        registry = record w.registry {
          entries = insert (record entry { invoked = true }) w.entries;
        };
        releases = w.releases;
        calls = w.calls ++ entry.cancel ∷ [];
      },
      true,
    )

unfoldable pub cancel : ℤ → String → World → Step Bool
unfolding insert
cancel user_id generation_id w =
    if not (valid_identity user_id generation_id)
    then some (w, false)
    else let w' = with_registry w (prepare w.registry) in
      invoke w' (find (record { user_id = user_id; generation_id = generation_id }) w'.entries)

abbrev report : World → Option Registry → Step Bool
report w none = none
report w (some r) = some (with_registry w r, true)

abbrev remove_entry : World → Key → String → Option Entry → Step Bool
remove_entry w k token none = some (w, false)
remove_entry w k token (some entry) =
    if not (str_eq entry.token token)
    then some (w, false)
    else let r = record w.registry { entries = remove k w.entries } in
      if is_idle r.entries r.admissions
      then report w (shut r (close_drain r.drained))
      else some (with_registry w r, true)

-- `well_formed` is the result of the token test.
unfoldable pub unregister : ℤ → String → String → Bool → World → Step Bool
unfolding remove
unregister user_id generation_id token well_formed w =
    if not (valid_identity user_id generation_id) || not well_formed
    then some (w, false)
    else let w' = with_registry w (prepare w.registry) in
      let k : Key = record { user_id = user_id; generation_id = generation_id } in
      remove_entry w' k token (find k w'.entries)

-- `CloseAndWait` up to its `select`.
unfoldable pub close : World → Step (Unit {0})
unfolding invoke_all
close w =
    let r = w.registry in
    let (entries, cancels) = invoke_all r.entries in
    some (
      record {
        registry = record {
          entries = entries;
          closed = true;
          admissions = r.admissions;
          drained = drain_locked r.drained;
        };
        releases = w.releases;
        calls = w.calls ++ cancels;
      },
      tt,
    )

-- One section of an execution, by any goroutine.
pub data Op : Type 0 where
  begins : Op
  releases_at : ℕ → Op
  checks : ℤ → String → Option ℕ → Op
  commits : ℤ → String → ℕ → String → Op
  cancels : ℤ → String → Op
  unregisters : ℤ → String → String → Bool → Op
  closes : Op

abbrev pub forget : {A : Type 0} → Step A → Option World
forget none = none
forget (some (w, a)) = some w

unfoldable pub step : Op → World → Option World
step begins w = forget (begin_admission w)
step (releases_at i) w = forget (release i w)
step (checks u g c) w = forget (register_check u g c w)
step (commits u g c t) w = forget (register_commit u g c t w)
step (cancels u g) w = forget (cancel u g w)
step (unregisters u g t b) w = forget (unregister u g t b w)
step closes w = forget (close w)

abbrev continue : (World → Option World) → Option World → Option World
continue f none = none
continue f (some w) = f w

unfoldable pub run : List Op → World → Option World
run [] w = some w
run (o ∷ os) w = continue (run os) (step o w)

-- An execution did not panic, and its end satisfies P.
abbrev pub Ends : (World → Type 0) → Option World → Type 0
Ends P none = ⊥
Ends P (some w) = P w

abbrev pub start : World
start = record { registry = new_registry; releases = []; calls = [] }

continue-Ends :
    (P : World → Type 0) (f : World → Option World) (m : Option World)
    → Ends P m
    → ((w : World) → P w → Ends P (f w))
    → Ends P (continue f m)
continue-Ends P f none h k = h
continue-Ends P f (some w) h k = k w h

-- What every section keeps holds at the end of every execution.
pub run-Ends :
    (P : World → Type 0)
    → ((o : Op) (w : World) → P w → Ends P (step o w))
    → (os : List Op) (w : World) → P w
    → Ends P (run os w)
unfolding run
run-Ends P keep [] w h = h
run-Ends P keep (o ∷ os) w h =
    continue-Ends P (run os) (step o w) (keep o w h) (λ w' h'. run-Ends P keep os w' h')

pub Ends-some :
    (P : World → Type 0) (m : Option World) → Ends P m → (w : World) × (m ≡ some w) × P w
Ends-some P none h = absurd h
Ends-some P (some w) h = (w, refl, h)

pub continue-some :
    (f : World → Option World) (m : Option World) {v : World}
    → continue f m ≡ some v
    → (w : World) × (m ≡ some w) × (f w ≡ some v)
continue-some f none h = cc
continue-some f (some w) h = (w, refl, h)
