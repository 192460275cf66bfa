-- ===== src/Sse/Ending.antt =====
-- The methods that end the stream, against the rules.
use porsche.Prelude.{
  ℕ, ◌≤◌, ◌≡◌, refl, sym, ◌∙◌, ◌⊎◌, inl, inr, String, Bool, true, false, not, ◌||◌, Option, none,
  some, List, [], ◌∷◌, subst, if◌then◌else◌, All, arith, ◌==◌, ltb, length,
}
use porsche.Prelude.Dict
use porsche.Prelude.Dict.{Dict, get-put}
use porsche.Generation.Identity.{safe_integer}
use porsche.Sse.{
  SseError, invalid_event, models_running, terminal_error, Event, done_single, done_compare,
  error_event, Stream, Encoder, failed, present, safe_code, request_id, can_complete, tokens_known,
  outcomes, Outcome,
}
use porsche.Sse.Methods.{end_single, end_compare, send_error, sole_failed, compared, failed_stream}
use porsche.Sse.Trace.{ended, broken, started, finished, IsOpen, Follows, singles, compares, errs}
use porsche.Sse.Invariant.{
  Tracks, Live, Agrees, After, widen, failed-After, unless-After, frame-After,
}
use porsche.Sse.Report.{all_terminal-All, outcomes-IsReport}

module _ (frame_length : String → Event → Option ℕ) (models : List String) where
  finish-Live :
      (ev : Event) (enc : Encoder) (past : List Event)
      → Live models enc past
      → enc.meta_sent ≡ true
      → started (ev ∷ past) ≡ started past
      → finished (ev ∷ past) ≡ true
      → ((m : String) (st : Stream) → Tracks models past m st → Tracks models (ev ∷ past) m st)
      → Live models (record enc { terminal = true }) (ev ∷ past)
  finish-Live ev enc past l s p q k = record {
    healthy = l.healthy;
    own_models = l.own_models;
    sent = ground (arith, l.sent, p);
    over = ground (arith, q);
    unsent = inl s;
    tracked = λ m st e. k m st (l.tracked m st e);
    entered = l.entered;
  }

  -- A call that ends the stream refuses where an error is kept.
  open-After :
      (b : Bool) (e : SseError) (enc : Encoder) (x : Encoder × Option Event) (past : List Event)
      → Agrees models enc past
      → (Live models enc past → b ≡ false → After models x past)
      → (present enc.error ≡ true → b ≡ true)
      → After models (if b then failed e enc else x) past
  open-After b e enc x past a k d = unless-After models b e enc x past a.trace (go a.status)
    where
      go : (present enc.error ≡ true) ⊎ Live models enc past → b ≡ false → After models x past
      go (inl p) q = absurd (ground (arith, q, d p))
      go (inr l) q = k l q

  stays-IsOpen :
      {enc : Encoder} {past : List Event}
      → Live models enc past
      → enc.terminal ≡ false
      → enc.meta_sent ≡ true
      → IsOpen past
  stays-IsOpen l p q = record {
    begun = ground (arith, l.sent, q);
    unended = ground (arith, l.over, p);
  }

  sole :
      {enc : Encoder} {past : List Event} (ms : List String)
      → Live models enc past
      → enc.models ≡ ms
      → (length ms == 1) ≡ true
      → (elim ms [
        | [] ↦ true
        | m ∷ rest ↦ not (length rest == 0) || failed_stream (Dict.get enc.states m)
      ])
        ≡ false
      → (m : String) × (models ≡ m ∷ []) × (broken m past ≡ none)
  sole {enc} {past} [] l p q r = absurd (ground arith)
  sole {enc} {past} (m ∷ k ∷ ms) l p q r = absurd (ground arith)
  sole {enc} {past} (m ∷ []) l p q r = (m, sym l.own_models ∙ p, go (Dict.get enc.states m) refl r)
    where
      go :
          (found : Option Stream)
          → Dict.get enc.states m ≡ found
          → failed_stream found ≡ false
          → broken m past ≡ none
      go none e f = absurd (ground arith)
      go (some st) e f = ground (arith, f, (l.tracked m st e).code_of)

  pub end_single-After :
      (guid : String) (tokens total : ℕ) (enc : Encoder) (past : List Event)
      → Agrees models enc past
      → After models (end_single frame_length guid tokens total enc) past
  unfolding end_single can_complete
  end_single-After guid tokens total enc past a =
      open-After (present enc.error || enc.terminal) terminal_error enc _ past a
        (λ l p.
          unless-After models (not (safe_integer tokens) || not (safe_integer total)) invalid_event
            enc _ past a.trace
            (λ _.
              unless-After models
                (not (length enc.models == 1) || not (can_complete enc guid) || sole_failed enc)
                models_running enc _ past a.trace
                (λ q.
                  let sent : enc.meta_sent ≡ true = ground (arith, q) in
                  let (m, one, whole) =
                    sole enc.models l refl (ground (arith, q)) (ground (arith, q)) in
                  let all = all_terminal-All models enc past l enc.models (ground (arith, q)) in
                  frame-After frame_length models (done_single guid tokens total)
                    (record enc { terminal = true }) past a.trace
                    (singles m (stays-IsOpen l (ground (arith, p)) sent) one
                      (subst (λ (ms : List String). All (λ k. ended k past ≡ true) ms)
                        (l.own_models ∙ one) all).0
                      whole)
                    (finish-Live (done_single guid tokens total) enc past l sent refl refl
                      (λ j st t.
                        widen models (done_single guid tokens total) past j st refl refl refl t)))))
        (λ e. ground (arith, e))

  compared-After :
      (guid : String) (total : ℕ) (tokens : Dict ℕ) (enc : Encoder) (past : List Event)
      → Agrees models enc past
      → Live models enc past
      → IsOpen past
      → 2 ≤ length enc.models
      → All (λ m. ended m past ≡ true) enc.models
      → After models
          (compared frame_length guid total (outcomes enc.states tokens enc.models) enc)
          past
  compared-After guid total tokens enc past a l o two all =
      go (outcomes enc.states tokens enc.models) refl
    where
      go :
          (report : Option (Dict Outcome))
          → outcomes enc.states tokens enc.models ≡ report
          → After models (compared frame_length guid total report enc) past
      go none e = failed-After models invalid_event enc past a.trace
      go (some r) e =
          frame-After frame_length models (done_compare guid total r)
            (record enc { terminal = true }) past a.trace
            (subst (λ (ms : List String). Follows ms past (done_compare guid total r)) l.own_models
              (compares o two all (outcomes-IsReport models enc past tokens l enc.models r e)))
            (finish-Live (done_compare guid total r) enc past l (ground (arith, l.sent, o.begun))
              refl refl
              (λ j st t. widen models (done_compare guid total r) past j st refl refl refl t))

  pub end_compare-After :
      (guid : String) (total : ℕ) (tokens : Dict ℕ) (enc : Encoder) (past : List Event)
      → Agrees models enc past
      → After models (end_compare frame_length guid total tokens enc) past
  unfolding end_compare can_complete
  end_compare-After guid total tokens enc past a =
      open-After (present enc.error || enc.terminal) terminal_error enc _ past a
        (λ l p.
          unless-After models (not (safe_integer total)) invalid_event enc _ past a.trace (λ _.
            unless-After models (ltb (length enc.models) 2 || not (can_complete enc guid))
              models_running enc _ past a.trace
              (λ q.
                unless-After models (not (tokens_known enc.states tokens)) invalid_event enc _ past
                  a.trace
                  (λ _.
                    compared-After guid total tokens enc past a l
                      (stays-IsOpen l (ground (arith, p)) (ground (arith, q))) (ground (arith, q))
                      (all_terminal-All models enc past l enc.models (ground (arith, q)))))))
        (λ e. ground (arith, e))

  pub send_error-After :
      (code request : String) (enc : Encoder) (past : List Event)
      → Agrees models enc past
      → After models (send_error frame_length code request enc) past
  unfolding send_error
  send_error-After code request enc past a =
      open-After (present enc.error || enc.terminal || not enc.meta_sent) terminal_error enc _ past
        a
        (λ l p.
          let ev = error_event (safe_code code) (request_id request) in
          let sent : enc.meta_sent ≡ true = ground (arith, p) in
          frame-After frame_length models ev (record enc { terminal = true }) past a.trace
            (errs (stays-IsOpen l (ground (arith, p)) sent))
            (finish-Live ev enc past l sent refl refl
              (λ j st t. widen models ev past j st refl refl refl t)))
        (λ e. ground (arith, e))
