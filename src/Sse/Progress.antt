-- ===== src/Sse/Progress.antt =====
-- What the encoder emits of that which the rules of the stream allow.
use porsche.Prelude.{
  ℕ, suc, ◌≡◌, ◌≤◌, ◌⊎◌, inl, inr, String, true, false, ◌||◌, Option, none, some, List, [], str_eq,
  arith, ok, ltb,
}
use porsche.Generation.Identity.{codes, utf8_length, max_safe_integer}
use porsche.Sse.{Event, delta, Encoder, present, new_encoder, max_delta_bytes}
use porsche.Sse.Methods.{Call, run, send_delta, ready_model, frame, fits}
use porsche.Sse.Trace.{MaySpeak, deltas}
use porsche.Sse.Invariant.{Live}
use porsche.Sse.Grammar.{run-Agrees, new_encoder-Agrees}

module _ (frame_length : String → Event → Option ℕ) (models : List String) where
  send_delta-Live :
      (m text : String) (seq : ℕ) (enc : Encoder) (past : List Event)
      → Live models enc past
      → MaySpeak models m past
      → seq ≡ suc (deltas m past)
      → (str_eq text "" || ltb max_delta_bytes (utf8_length (codes text))) ≡ false
      → seq ≤ max_safe_integer
      → fits (frame_length enc.generation_id (delta m seq text)) ≡ true
      → (send_delta frame_length m seq text enc).1 ≡ some (delta m seq text)
  unfolding send_delta ready_model frame
  send_delta-Live m text seq enc past l may next valid safe fit =
      let (st, found) = l.entered m may.known in
      let t = l.tracked m st found in
      ground (
        arith, l.healthy, l.over, l.sent, may.open_stream.begun, may.open_stream.unended, found,
        t.counted, t.stopped, may.speaking, next, valid, safe, fit,
      )

  -- While no error is kept, a model of the stream that has not ended, on a stream that has begun and
  -- not ended, may send its next delta: a text within the bounds, whose frame fits, is emitted.
  pub send_delta-MaySpeak :
      (id m text : String) (seq : ℕ) (ks : List Call) (enc : Encoder)
      → new_encoder id models ≡ ok enc
      → (run frame_length ks enc []).0.error ≡ none
      → MaySpeak models m (run frame_length ks enc []).1
      → seq ≡ suc (deltas m (run frame_length ks enc []).1)
      → (str_eq text "" || ltb max_delta_bytes (utf8_length (codes text))) ≡ false
      → seq ≤ max_safe_integer
      → fits (frame_length (run frame_length ks enc []).0.generation_id (delta m seq text)) ≡ true
      → (send_delta frame_length m seq text (run frame_length ks enc []).0).1
        ≡ some (delta m seq text)
  send_delta-MaySpeak id m text seq ks enc h e may next valid safe fit =
      go
        (run-Agrees frame_length models ks enc []
          (new_encoder-Agrees frame_length models id enc h)).status
    where
      go :
          (present (run frame_length ks enc []).0.error ≡ true)
            ⊎ Live models (run frame_length ks enc []).0 (run frame_length ks enc []).1
          → (send_delta frame_length m seq text (run frame_length ks enc []).0).1
            ≡ some (delta m seq text)
      go (inl p) = absurd (ground (arith, p, e))
      go (inr l) =
          send_delta-Live m text seq (run frame_length ks enc []).0 (run frame_length ks enc []).1 l
            may next valid safe fit
