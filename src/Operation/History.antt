-- ===== src/Operation/History.antt =====
-- internal/service/action_operation.go: the transactions as steps on the tables. Each has its own
-- reading of the users and sessions, and of the clock; a transaction that fails leaves the tables.
use porsche.Prelude.{ℕ, String, List, [], ◌∷◌, ok, err}
use porsche.Prelude.Int.{ℤ}
use porsche.Intent.Actions.{Action}
use porsche.Operation.{Operation, Actor, Checked}
use porsche.Operation.Access.{Directory}
use porsche.Operation.Begin.{Store, Crypto, Request, Draw}
use porsche.Operation.Requests.{Answer, begin, query, mark_pending_recovery, Terminal, finish}

pub data Step : Type 0 where
  begins : Directory → Draw → Request → Step
  queries : Directory → Draw → Action → Actor → List String → Step
  recovers : Draw → ℕ → Step
  finishes : String → Terminal → (actor_id now : ℤ) → ℕ → Operation → Step

abbrev pub after_answer : Store → Answer → Store
after_answer s (err e) = s
after_answer s (ok (r, s')) = s'

abbrev pub after : Store → Checked Store → Store
after s (err e) = s
after s (ok s') = s'

module _ (c : Crypto) where
  unfoldable pub step : Step → Store → Store
  unfolding begin query mark_pending_recovery finish
  step (begins dir draw r) s = after_answer s (begin c dir draw r s)
  step (queries dir draw action actor keys) s =
      after_answer s (query c dir draw action actor keys s)
  step (recovers draw i) s = after s (mark_pending_recovery draw i s)
  step (finishes lease t actor_id now i o) s = after s (finish lease t actor_id now i o s)

  unfoldable pub run : List Step → Store → Store
  unfolding step
  run [] s = s
  run (x ∷ xs) s = run xs (step x s)
