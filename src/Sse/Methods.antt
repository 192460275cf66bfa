-- ===== src/Sse/Methods.antt =====
-- internal/service/platform_sse_v2.go: the methods of the encoder.
use porsche.Prelude.{
  ℕ, ◌+◌, String, Bool, true, false, not, ◌||◌, Option, none, some, List, [], ◌∷◌, str_eq, ltb, leb,
  ◌==◌, if◌then◌else◌, length,
}
use porsche.Prelude.Dict
use porsche.Prelude.Dict.{Dict}
use porsche.Generation.Identity.{codes, safe_integer, identifier, utf8_length}
use porsche.Sse.{
  meta_required, sequence, invalid_event, models_running, terminal_error, Stream, Encoder, Outcome,
  Event, meta, delta, model_done, model_error, done_single, done_compare, error_event, present,
  safe_code, request_id, failed, max_frame_bytes, max_delta_bytes, can_complete, tokens_known,
  outcomes,
}

-- The methods, with their arguments.
pub data Call : Type 0 where
  sends_meta : String → Call
  sends_delta : String → ℕ → String → Call
  ends_model : String → ℕ → Call
  fails_model : String → String → String → Call
  ends_single : String → ℕ → ℕ → Call
  ends_compare : String → ℕ → Dict ℕ → Call
  sends_error : String → String → Call

-- The text of a frame is within the bound.
abbrev pub fits : Option ℕ → Bool
fits none = false
fits (some n) = leb n max_frame_bytes

-- `readyModel` and the rest of the method: a model that is ready is handed on.
abbrev pub with_stream :
    Option Stream → (Stream → Encoder × Option Event) → Encoder → Encoder × Option Event
with_stream none next enc = failed invalid_event enc
with_stream (some st) next enc = if st.is_terminal then failed invalid_event enc else next st

abbrev pub put_stream : String → Stream → Encoder → Encoder
put_stream m st enc = record enc { states = Dict.put enc.states m st }

abbrev pub failed_stream : Option Stream → Bool
failed_stream none = true
failed_stream (some st) = st.is_failed

-- `e.states[e.models[0]].failed`, where there is one model; true where there is not.
abbrev pub sole_failed : Encoder → Bool
sole_failed enc = elim enc.models [
  | [] ↦ true
  | m ∷ ms ↦ not (length ms == 0) || failed_stream (Dict.get enc.states m)
]

-- The event that a call emits goes to the front of those before it.
abbrev pub emit : Option Event → List Event → List Event
emit none past = past
emit (some ev) past = ev ∷ past

module _ (frame_length : String → Event → Option ℕ) where
  -- `frame`.
  unfoldable pub frame : Event → Encoder → Encoder × Option Event
  frame ev enc =
      if present enc.error
      then (enc, none)
      else if fits (frame_length enc.generation_id ev)
      then (enc, some ev)
      else failed invalid_event enc

  unfoldable pub ready_model :
      String → (Stream → Encoder × Option Event) → Encoder → Encoder × Option Event
  ready_model m next enc =
      if present enc.error || enc.terminal
      then failed terminal_error enc
      else if not enc.meta_sent
      then failed meta_required enc
      else with_stream (Dict.get enc.states m) next enc

  -- `Meta`.
  unfoldable pub send_meta : String → Encoder → Encoder × Option Event
  unfolding frame
  send_meta guid enc =
      if not (identifier guid) || enc.meta_sent
      then failed invalid_event enc
      else frame (meta guid enc.models) (record enc { meta_sent = true })

  -- `Delta`.
  unfoldable pub send_delta : String → ℕ → String → Encoder → Encoder × Option Event
  unfolding frame ready_model
  send_delta m seq text enc =
      ready_model m
        (λ st.
          if str_eq text ""
            || ltb max_delta_bytes (utf8_length (codes text))
            || not (safe_integer seq)
          then failed invalid_event enc
          else if not (seq == st.next_seq)
          then failed sequence enc
          else frame (delta m seq text)
              (put_stream m (record st { next_seq = st.next_seq + 1 }) enc))
        enc

  -- `ModelDone`.
  unfoldable pub end_model : String → ℕ → Encoder → Encoder × Option Event
  unfolding frame ready_model
  end_model m last_seq enc =
      ready_model m
        (λ st.
          if not (safe_integer last_seq) || not (last_seq + 1 == st.next_seq)
          then failed sequence enc
          else frame (model_done m last_seq) (put_stream m (record st { is_terminal = true }) enc))
        enc

  -- `ModelError`.
  unfoldable pub fail_model : String → String → String → Encoder → Encoder × Option Event
  unfolding frame ready_model
  fail_model m code request enc =
      ready_model m
        (λ st. frame (model_error m (safe_code code) (request_id request)) (
          put_stream m (record st { is_terminal = true; is_failed = true; code = safe_code code })
            enc))
        enc

  -- `DoneSingle`.
  unfoldable pub end_single : String → ℕ → ℕ → Encoder → Encoder × Option Event
  unfolding frame can_complete
  end_single guid tokens total enc =
      if present enc.error || enc.terminal
      then failed terminal_error enc
      else if not (safe_integer tokens) || not (safe_integer total)
      then failed invalid_event enc
      else if not (length enc.models == 1) || not (can_complete enc guid) || sole_failed enc
      then failed models_running enc
      else frame (done_single guid tokens total) (record enc { terminal = true })

  abbrev pub compared : String → ℕ → Option (Dict Outcome) → Encoder → Encoder × Option Event
  compared guid total none enc = failed invalid_event enc
  compared guid total (some report) enc =
      frame (done_compare guid total report) (record enc { terminal = true })

  -- `DoneCompare`.
  unfoldable pub end_compare : String → ℕ → Dict ℕ → Encoder → Encoder × Option Event
  unfolding frame can_complete
  end_compare guid total tokens enc =
      if present enc.error || enc.terminal
      then failed terminal_error enc
      else if not (safe_integer total)
      then failed invalid_event enc
      else if ltb (length enc.models) 2 || not (can_complete enc guid)
      then failed models_running enc
      else if not (tokens_known enc.states tokens)
      then failed invalid_event enc
      else compared guid total (outcomes enc.states tokens enc.models) enc

  -- `Error`.
  unfoldable pub send_error : String → String → Encoder → Encoder × Option Event
  unfolding frame
  send_error code request enc =
      if present enc.error || enc.terminal || not enc.meta_sent
      then failed terminal_error enc
      else frame (error_event (safe_code code) (request_id request))
          (record enc { terminal = true })

  unfoldable pub call : Call → Encoder → Encoder × Option Event
  call (sends_meta guid) enc = send_meta guid enc
  call (sends_delta m seq text) enc = send_delta m seq text enc
  call (ends_model m last_seq) enc = end_model m last_seq enc
  call (fails_model m code request) enc = fail_model m code request enc
  call (ends_single guid tokens total) enc = end_single guid tokens total enc
  call (ends_compare guid total tokens) enc = end_compare guid total tokens enc
  call (sends_error code request) enc = send_error code request enc

  -- An execution, from an encoder and the events emitted so far, the newest first.
  unfoldable pub run : List Call → Encoder → List Event → Encoder × List Event
  run [] enc past = (enc, past)
  run (k ∷ ks) enc past = let (enc', out) = call k enc in run ks enc' (emit out past)
