-- ===== src/Sse/Grammar.antt =====
-- Executions of the encoder against the rules of the stream.
use porsche.Prelude.{
  ◌⊎◌, ℕ, ◌≡◌, refl, inl, inr, String, Option, some, List, [], ◌∷◌, str_eq, eq_iff, subst, In, All,
  arith, Bool-cases, Result, ok, err,
}
use porsche.Prelude.Dict
use porsche.Prelude.Dict.{Dict, get-put}
use porsche.Sse.{
  SseError, Event, Stream, Encoder, fresh_stream, new_encoder, encoder_with, fresh_streams,
}
use porsche.Sse.Methods.{
  emit, call, Call, sends_meta, sends_delta, ends_model, fails_model, ends_single, ends_compare,
  sends_error, run,
}
use porsche.Sse.Trace.{IsTrace}
use porsche.Sse.Invariant.{Tracks, Agrees, After}
use porsche.Sse.Speaking.{send_meta-After, send_delta-After, end_model-After, fail_model-After}
use porsche.Sse.Ending.{end_single-After, end_compare-After, send_error-After}

module _ (frame_length : String → Event → Option ℕ) (models : List String) where
  call-After :
      (k : Call) (enc : Encoder) (past : List Event)
      → Agrees models enc past
      → After models (call frame_length k enc) past
  unfolding call
  call-After (sends_meta g) enc past a = send_meta-After frame_length models g enc past a
  call-After (sends_delta m n t) enc past a = send_delta-After frame_length models m n t enc past a
  call-After (ends_model m n) enc past a = end_model-After frame_length models m n enc past a
  call-After (fails_model m c r) enc past a = fail_model-After frame_length models m c r enc past a
  call-After (ends_single g n t) enc past a = end_single-After frame_length models g n t enc past a
  call-After (ends_compare g t k) enc past a =
      end_compare-After frame_length models g t k enc past a
  call-After (sends_error c r) enc past a = send_error-After frame_length models c r enc past a

  pub run-Agrees :
      (ks : List Call) (enc : Encoder) (past : List Event)
      → Agrees models enc past
      → Agrees models (run frame_length ks enc past).0 (run frame_length ks enc past).1
  unfolding run
  run-Agrees [] enc past a = a
  run-Agrees (k ∷ ks) enc past a =
      let (enc', out) = call frame_length k enc in
      run-Agrees ks enc' (emit out past) (call-After k enc past a)

  -- The entries of a new encoder are fresh, and of its models.
  IsFresh : Dict Stream → Type 0
  IsFresh d = (m : String) (st : Stream) → Dict.get d m ≡ some st → Tracks models [] m st

  put-IsFresh :
      (m : String) (d : Dict Stream) → In m models → IsFresh d → IsFresh (Dict.put d m fresh_stream)
  unfolding fresh_stream IsFresh
  put-IsFresh m d i f j st h = elim (Bool-cases (str_eq m j)) [
    | inl p ↦
        let same : fresh_stream ≡ st = ground (arith, p, get-put d m j fresh_stream, h) in
        subst (λ (x : Stream). Tracks models [] j x) same
          (record {
            counted = refl;
            stopped = refl;
            code_of = refl;
            listed = subst (λ (x : String). In x models) ((eq_iff m j).0 p) i;
          })
    | inr p ↦ f j st (ground (arith, p, get-put d m j fresh_stream, h))
  ]

  fresh_streams-IsFresh :
      (ms : List String) (d states : Dict Stream)
      → All (λ m. In m models) ms
      → IsFresh d
      → fresh_streams ms d ≡ ok states
      → IsFresh states
  unfolding fresh_streams fresh_stream
  fresh_streams-IsFresh [] d states i f h = subst IsFresh (ground (arith, h)) f
  fresh_streams-IsFresh (m ∷ ms) d states i f h =
      fresh_streams-IsFresh ms (Dict.put d m fresh_stream) states i.1 (put-IsFresh m d i.0 f)
        (ground arith)

  All-In : (ms : List String) → ((m : String) → In m ms → In m models) → All (λ m. In m models) ms
  All-In [] k = tt
  All-In (m ∷ ms) k = (k m (inl refl), All-In ms (λ j i. k j (inr i)))

  IsFound : Dict Stream → String → Type 0
  IsFound states m = (st : Stream) × (Dict.get states m ≡ some st)

  fresh_streams-IsFound :
      (j : String) (ms : List String) (d states : Dict Stream)
      → fresh_streams ms d ≡ ok states
      → IsFound d j ⊎ In j ms
      → IsFound states j
  unfolding fresh_streams IsFound
  fresh_streams-IsFound j [] d states h (inl (st, p)) = (st, ground (arith, p))
  fresh_streams-IsFound j [] d states h (inr i) = absurd i
  fresh_streams-IsFound j (m ∷ ms) d states h i =
      fresh_streams-IsFound j ms (Dict.put d m fresh_stream) states (ground arith) (moved i)
    where
      moved : IsFound d j ⊎ In j (m ∷ ms) → IsFound (Dict.put d m fresh_stream) j ⊎ In j ms
      moved (inr (inr i)) = inr i
      moved (inr (inl p)) =
          inl (fresh_stream, ground (arith, (eq_iff m j).1 p, get-put d m j fresh_stream))
      moved (inl (st, p)) = elim (Bool-cases (str_eq m j)) [
        | inl q ↦ inl (fresh_stream, ground (arith, q, get-put d m j fresh_stream))
        | inr q ↦ inl (st, ground (arith, q, p, get-put d m j fresh_stream))
      ]

  encoder_with-Agrees :
      (id : String) (enc : Encoder) (states : Dict Stream)
      → IsFresh states
      → ((m : String) → In m models → IsFound states m)
      → encoder_with id models (ok states) ≡ ok enc
      → Agrees models enc []
  unfolding IsFresh IsFound
  encoder_with-Agrees id enc states f g h = record {
    trace = tt;
    status = inr (record {
      healthy = ground arith;
      own_models = ground arith;
      sent = ground arith;
      over = ground arith;
      unsent = inr (refl, ground arith);
      tracked = λ m st e. f m st (ground arith);
      entered = λ m i. let (st, p) = g m i in (st, ground (arith, p));
    });
  }

  empty-IsFresh : IsFresh []
  unfolding IsFresh Dict.get
  empty-IsFresh m st e = absurd (ground arith)

  pub new_encoder-Agrees :
      (id : String) (enc : Encoder) → new_encoder id models ≡ ok enc → Agrees models enc []
  unfolding new_encoder IsFresh
  new_encoder-Agrees id enc h = go (fresh_streams models []) refl (ground arith)
    where
      go :
          (x : Result SseError (Dict Stream))
          → fresh_streams models [] ≡ x
          → encoder_with id models x ≡ ok enc
          → Agrees models enc []
      go (err e) p q = absurd (ground arith)
      go (ok states) p q =
          encoder_with-Agrees id enc states
            (fresh_streams-IsFresh models [] states (All-In models (λ _ i. i)) empty-IsFresh p)
            (λ m i. fresh_streams-IsFound m models [] states p (inr i)) q

  -- Whatever is called, in whatever order, what a new encoder emits follows the rules of the stream:
  -- the frame of the models first and once; the deltas of a model numbered from 1 without a gap; the
  -- count of them at its end, and nothing of it after that; an end of the stream that says of every
  -- model what its frames said, all of them ended; and nothing after the end.
  pub run-IsTrace :
      (id : String) (ks : List Call) (enc : Encoder)
      → new_encoder id models ≡ ok enc
      → IsTrace models (run frame_length ks enc []).1
  run-IsTrace id ks enc h = (run-Agrees ks enc [] (new_encoder-Agrees id enc h)).trace
