-- ===== src/Sse/Samples.antt =====
-- A stream of two models, one of which fails.
use porsche.Prelude.{
  ℕ, ◌≡◌, refl, String, true, false, Option, none, some, List, [], ◌∷◌, ok, contains, inl, ap, sym,
  suc, str_eq, ◌||◌, ltb, arith,
}
use porsche.Prelude.Dict
use porsche.Generation.Identity.{canonical_uuid, identifier, model_identifier, utf8_length, codes}
use porsche.Generation.Snapshot.{stable_code, stable_codes}
use porsche.Sse.{
  Event, meta, delta, model_done, model_error, done_compare, completed_with, failed_with, Encoder,
  Stream, new_encoder, max_delta_bytes, fresh_streams, fresh_stream, fail, safe_code, request_id,
  can_complete, tokens_known, outcomes,
}
use porsche.Sse.Methods.{
  Call, sends_meta, sends_delta, ends_model, fails_model, ends_compare, call, run, frame,
  ready_model, send_meta, send_delta, end_model, fail_model, end_compare,
}
use porsche.Sse.Trace.{IsTrace, MaySpeak, deltas}
use porsche.Sse.Progress.{send_delta-MaySpeak}
use porsche.Sse.Grammar.{run-IsTrace}

abbrev uuid : String
uuid = "0b5f2f6e-30b8-4d5c-9a51-0d2a6f1c7e42"

abbrev models : List String
models = "a" ∷ "b" ∷ []

abbrev short : String → Event → Option ℕ
short id ev = some 100

abbrev unused : Stream
unused = record { next_seq = 1; is_terminal = false; is_failed = false; code = "" }

abbrev fresh : Encoder
fresh = record {
  generation_id = uuid;
  models = models;
  states = ("a", unused) ∷ ("b", unused) ∷ [];
  meta_sent = false;
  terminal = false;
  error = none;
}

new_runs : new_encoder uuid models ≡ ok fresh
unfolding new_encoder fresh_stream fresh_streams canonical_uuid model_identifier Dict.get Dict.put
new_runs = refl

abbrev calls : List Call
calls =
    sends_meta "c"
    ∷ sends_delta "a" 1 "x"
    ∷ sends_delta "a" 2 "y"
    ∷ fails_model "b" "secret" ""
    ∷ ends_model "a" 2
    ∷ ends_compare "c" 9 (("a", 9) ∷ [])
    ∷ []

abbrev events : List Event
events =
    done_compare "c" 9 (("a", completed_with 9) ∷ ("b", failed_with "upstream_error") ∷ [])
    ∷ model_done "a" 2
    ∷ model_error "b" "upstream_error" ""
    ∷ delta "a" 2 "y"
    ∷ delta "a" 1 "x"
    ∷ meta "c" models
    ∷ []

calls_emit : (run short calls fresh []).1 ≡ events
unfolding run call frame ready_model send_meta send_delta end_model fail_model end_compare fail
    identifier can_complete tokens_known outcomes safe_code request_id stable_code stable_codes
    contains Dict.get Dict.put
calls_emit = refl

run-IsTrace_example : IsTrace models (run short calls fresh []).1
run-IsTrace_example = run-IsTrace short models uuid calls fresh new_runs

abbrev early : List Call
early = sends_meta "c" ∷ sends_delta "a" 1 "x" ∷ []

abbrev grown : Encoder
grown = record fresh {
  meta_sent = true;
  states =
      ("a", record { next_seq = 2; is_terminal = false; is_failed = false; code = "" })
      ∷ ("b", unused)
      ∷ [];
}

early_runs : run short early fresh [] ≡ (grown, delta "a" 1 "x" ∷ meta "c" models ∷ [])
unfolding run call frame ready_model send_meta send_delta fail identifier Dict.get Dict.put
early_runs = refl

early-MaySpeak : MaySpeak models "a" (run short early fresh []).1
unfolding run call frame ready_model send_meta send_delta fail identifier Dict.get Dict.put
early-MaySpeak = record {
  open_stream = record { begun = refl; unended = refl };
  known = inl refl;
  speaking = refl;
}

early_count : 2 ≡ suc (deltas "a" (run short early fresh []).1)
early_count = ap (λ x. suc (deltas "a" x.1)) (sym early_runs)

text_valid : (str_eq "y" "" || ltb max_delta_bytes (utf8_length (codes "y"))) ≡ false
unfolding utf8_length
text_valid = refl

send_delta-MaySpeak_example :
    (send_delta short "a" 2 "y" (run short early fresh []).0).1 ≡ some (delta "a" 2 "y")
send_delta-MaySpeak_example =
    send_delta-MaySpeak short models uuid "a" "y" 2 early fresh new_runs
      (ap (λ x. x.0.error) early_runs) early-MaySpeak early_count text_valid (ground arith) refl
