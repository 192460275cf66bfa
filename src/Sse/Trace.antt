-- ===== src/Sse/Trace.antt =====
-- What the client of a stream may rely on, read off the events alone: how each event follows those
-- before it. The past is a list with the newest event first.
use porsche.Prelude.{
  ℕ, suc, ◌+◌, ◌≤◌, ◌≡◌, String, Bool, true, false, ◌||◌, Option, none, some, List, [], ◌∷◌, str_eq,
  if◌then◌else◌, length, In, All,
}
use porsche.Prelude.Dict.{Dict}
use porsche.Generation.Snapshot.{bit}
use porsche.Sse.{
  Event, meta, delta, model_done, model_error, done_single, done_compare, error_event, Outcome,
  failed_with, completed_with,
}

-- The deltas of a model.
abbrev pub deltas : String → List Event → ℕ
deltas m [] = 0
deltas m (delta k n t ∷ past) = bit (str_eq k m) + deltas m past
deltas m (_ ∷ past) = deltas m past

-- The model has ended.
abbrev pub ended : String → List Event → Bool
ended m [] = false
ended m (model_done k n ∷ past) = str_eq k m || ended m past
ended m (model_error k c r ∷ past) = str_eq k m || ended m past
ended m (_ ∷ past) = ended m past

-- The code of the model's error.
abbrev pub broken : String → List Event → Option String
broken m [] = none
broken m (model_error k c r ∷ past) = if str_eq k m then some c else broken m past
broken m (_ ∷ past) = broken m past

abbrev pub started : List Event → Bool
started [] = false
started (meta g ms ∷ past) = true
started (_ ∷ past) = started past

-- The stream has ended.
abbrev pub finished : List Event → Bool
finished [] = false
finished (done_single g n t ∷ past) = true
finished (done_compare g t r ∷ past) = true
finished (error_event c r ∷ past) = true
finished (_ ∷ past) = finished past

-- The stream has begun and not ended.
pub record IsOpen (past : List Event) : Type 0 where
  pub begun : started past ≡ true
  pub unended : finished past ≡ false

-- The model is one of the stream's, and has not ended.
pub record MaySpeak (models : List String) (m : String) (past : List Event) : Type 0 where
  pub open_stream : IsOpen past
  pub known : In m models
  pub speaking : ended m past ≡ false

-- The report of a model is what its events say.
abbrev pub Reports : List Event → String → Outcome → Type 0
Reports past m (failed_with c) = broken m past ≡ some c
Reports past m (completed_with n) = broken m past ≡ none

-- The report has the models in their order.
pub data IsReport (past : List Event) : List String → Dict Outcome → Type 0 where
  none_left : IsReport past [] []
  reports :
      {m : String} {ms : List String} {o : Outcome} {r : Dict Outcome}
      → Reports past m o
      → IsReport past ms r
      → IsReport past (m ∷ ms) ((m, o) ∷ r)

pub data Follows (models : List String) (past : List Event) : Event → Type 0 where
  starts : {g : String} → past ≡ [] → Follows models past (meta g models)
  grows :
      {m t : String} {n : ℕ}
      → MaySpeak models m past
      → n ≡ suc (deltas m past)
      → Follows models past (delta m n t)
  ends :
      {m : String} {n : ℕ}
      → MaySpeak models m past
      → n ≡ deltas m past
      → Follows models past (model_done m n)
  breaks : {m c r : String} → MaySpeak models m past → Follows models past (model_error m c r)
  singles :
      {g : String} {n t : ℕ} (m : String)
      → IsOpen past
      → models ≡ m ∷ []
      → ended m past ≡ true
      → broken m past ≡ none
      → Follows models past (done_single g n t)
  compares :
      {g : String} {t : ℕ} {r : Dict Outcome}
      → IsOpen past
      → 2 ≤ length models
      → All (λ m. ended m past ≡ true) models
      → IsReport past models r
      → Follows models past (done_compare g t r)
  errs : {c r : String} → IsOpen past → Follows models past (error_event c r)

abbrev pub IsTrace : List String → List Event → Type 0
IsTrace models [] = Unit
IsTrace models (ev ∷ past) = Follows models past ev × IsTrace models past
