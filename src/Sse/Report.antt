-- ===== src/Sse/Report.antt =====
-- What the loops of `canComplete` and `DoneCompare` find, said of the events.
use porsche.Prelude.{
  ℕ, ◌≡◌, refl, inl, inr, String, true, Option, none, some, List, [], ◌∷◌, subst, All, arith,
  Option-cases,
}
use porsche.Prelude.Dict
use porsche.Prelude.Dict.{Dict, get-put}
use porsche.Sse.{
  Event, Stream, Encoder, outcomes, all_terminal, Outcome, failed_with, completed_with, outcome_of,
  add_outcome,
}
use porsche.Sse.Trace.{ended, IsReport, none_left, reports, Reports}
use porsche.Sse.Invariant.{Tracks, Live}

pub all_terminal-All :
    (models : List String) (enc : Encoder) (past : List Event)
    → Live models enc past
    → (ms : List String) → all_terminal enc.states ms ≡ true
    → All (λ m. ended m past ≡ true) ms
unfolding all_terminal
all_terminal-All models enc past l [] h = tt
all_terminal-All models enc past l (m ∷ ms) h = elim (Option-cases (Dict.get enc.states m)) [
  | inl p ↦ absurd (ground (arith, p))
  | inr (st, p) ↦ (
    ground (arith, p, (l.tracked m st p).stopped),
    all_terminal-All models enc past l ms (ground (arith, p)),
  )
]

stream-Reports :
    (models : List String) (past : List Event) (m : String) (st : Stream) (n : Option ℕ)
    (o : Outcome)
    → Tracks models past m st
    → outcome_of (some st) n ≡ some o
    → Reports past m o
stream-Reports models past m st none (failed_with c) t h = ground (arith, t.code_of)
stream-Reports models past m st none (completed_with k) t h = ground (arith, t.code_of)
stream-Reports models past m st (some n) (failed_with c) t h = ground (arith, t.code_of)
stream-Reports models past m st (some n) (completed_with k) t h = ground (arith, t.code_of)

pub outcomes-IsReport :
    (models : List String) (enc : Encoder) (past : List Event) (tokens : Dict ℕ)
    → Live models enc past
    → (ms : List String) (r : Dict Outcome) → outcomes enc.states tokens ms ≡ some r
    → IsReport past ms r
unfolding outcomes
outcomes-IsReport models enc past tokens l [] [] h = none_left
outcomes-IsReport models enc past tokens l [] (x ∷ r) h = absurd (ground arith)
outcomes-IsReport models enc past tokens l (m ∷ ms) r h =
    go (outcomes-IsReport models enc past tokens l ms) (Dict.get enc.states m) refl
      (outcomes enc.states tokens ms) refl (outcome_of (Dict.get enc.states m) (Dict.get tokens m))
      refl h
  where
    go :
        ((x : Dict Outcome) → outcomes enc.states tokens ms ≡ some x → IsReport past ms x)
        → (found : Option Stream) → Dict.get enc.states m ≡ found
        → (rest : Option (Dict Outcome)) → outcomes enc.states tokens ms ≡ rest
        → (o : Option Outcome) → outcome_of found (Dict.get tokens m) ≡ o
        → add_outcome m o rest ≡ some r
        → IsReport past (m ∷ ms) r
    go k none p rest q o w e = absurd (ground (arith, w, e))
    go k (some st) p rest q none w e = absurd (ground arith)
    go k (some st) p none q (some o) w e = absurd (ground arith)
    go k (some st) p (some rest) q (some o) w e =
        subst (λ (x : Dict Outcome). IsReport past (m ∷ ms) x) (ground (arith, e))
          (reports (stream-Reports models past m st (Dict.get tokens m) o (l.tracked m st p) w)
            (k rest q))
