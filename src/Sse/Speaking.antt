-- ===== src/Sse/Speaking.antt =====
-- The methods that begin the stream and that speak of one model, against the rules.
use porsche.Prelude.{
  ℕ, ◌+◌, ◌≡◌, refl, sym, ◌⊎◌, inl, inr, String, true, false, not, ◌||◌, Option, List, [], ◌∷◌,
  str_eq, eq_refl, subst, arith, ◌==◌, ltb,
}
use porsche.Generation.Identity.{codes, safe_integer, identifier, utf8_length}
use porsche.Sse.{
  sequence, invalid_event, Event, meta, delta, model_done, model_error, Stream, Encoder, present,
  safe_code, request_id, max_delta_bytes,
}
use porsche.Sse.Methods.{frame, send_meta, send_delta, end_model, fail_model}
use porsche.Sse.Trace.{Follows, starts, grows, ends, breaks}
use porsche.Sse.Invariant.{
  Tracks, Live, Agrees, After, widen, unless-After, frame-After, ready_model-After, put_stream-Live,
}

module _ (frame_length : String → Event → Option ℕ) (models : List String) where
  unsent_past :
      {enc : Encoder} {past : List Event} → Live models enc past → enc.meta_sent ≡ false → past ≡ []
  unsent_past l q = elim l.unsent [ inl p ↦ absurd (ground (arith, p, q)) | inr (p, _) ↦ p ]

  pub send_meta-After :
      (guid : String) (enc : Encoder) (past : List Event)
      → Agrees models enc past
      → After models (send_meta frame_length guid enc) past
  unfolding send_meta frame
  send_meta-After guid enc past a =
      unless-After models (not (identifier guid) || enc.meta_sent) invalid_event enc _ past a.trace
        (λ p. go a.status (ground (arith, p)))
    where
      go :
          (present enc.error ≡ true) ⊎ Live models enc past
          → enc.meta_sent ≡ false
          → After models
              (frame frame_length (meta guid enc.models) (record enc { meta_sent = true }))
              past
      go (inl e) q = rw e (record { trace = a.trace; status = inl e })
      go (inr l) q =
          frame-After frame_length models (meta guid enc.models) (record enc { meta_sent = true })
            past a.trace
            (subst (λ (ms : List String). Follows models past (meta guid ms)) (sym l.own_models)
              (starts (unsent_past l q)))
            (record {
              healthy = l.healthy;
              own_models = l.own_models;
              sent = refl;
              over = l.over;
              unsent = inl refl;
              tracked = λ m st e.
                  widen models (meta guid enc.models) past m st refl refl refl (l.tracked m st e);
              entered = l.entered;
            })

  other_delta :
      (m t : String) (n : ℕ) (past : List Event) (j : String) (st : Stream)
      → str_eq m j ≡ false
      → Tracks models past j st
      → Tracks models (delta m n t ∷ past) j st
  other_delta m t n past j st q k =
      widen models (delta m n t) past j st (ground (arith, q)) refl refl k

  pub send_delta-After :
      (m : String) (seq : ℕ) (text : String) (enc : Encoder) (past : List Event)
      → Agrees models enc past
      → After models (send_delta frame_length m seq text enc) past
  unfolding send_delta
  send_delta-After m seq text enc past a =
      ready_model-After frame_length models m _ enc past a (λ l st found t may.
        unless-After models
          (str_eq text ""
            || ltb max_delta_bytes (utf8_length (codes text))
            || not (safe_integer seq))
          invalid_event enc _ past a.trace
          (λ _. unless-After models (not (seq == st.next_seq)) sequence enc _ past a.trace (λ p.
            frame-After frame_length models (delta m seq text) _ past a.trace
              (grows may (ground (arith, p, t.counted)))
              (put_stream-Live frame_length models (delta m seq text) m
                (record st { next_seq = st.next_seq + 1 }) enc past l may.open_stream
                (record {
                  counted = ground (arith, t.counted, eq_refl m);
                  stopped = t.stopped;
                  code_of = t.code_of;
                  listed = t.listed;
                })
                refl refl (other_delta m text seq past)))))

  pub end_model-After :
      (m : String) (last : ℕ) (enc : Encoder) (past : List Event)
      → Agrees models enc past
      → After models (end_model frame_length m last enc) past
  unfolding end_model
  end_model-After m last enc past a =
      ready_model-After frame_length models m _ enc past a (λ l st found t may.
        unless-After models (not (safe_integer last) || not (last + 1 == st.next_seq)) sequence enc
          _ past a.trace
          (λ p.
            frame-After frame_length models (model_done m last) _ past a.trace
              (ends may (ground (arith, p, t.counted)))
              (put_stream-Live frame_length models (model_done m last) m
                (record st { is_terminal = true }) enc past l may.open_stream
                (record {
                  counted = t.counted;
                  stopped = ground (arith, eq_refl m);
                  code_of = t.code_of;
                  listed = t.listed;
                })
                refl refl
                (λ j x q k.
                  widen models (model_done m last) past j x refl (ground (arith, q)) refl k))))

  pub fail_model-After :
      (m code request : String) (enc : Encoder) (past : List Event)
      → Agrees models enc past
      → After models (fail_model frame_length m code request enc) past
  unfolding fail_model
  fail_model-After m code request enc past a =
      ready_model-After frame_length models m _ enc past a (λ l st found t may.
        frame-After frame_length models (model_error m (safe_code code) (request_id request)) _ past
          a.trace (breaks may)
          (put_stream-Live frame_length models (model_error m (safe_code code) (request_id request))
            m (record st { is_terminal = true; is_failed = true; code = safe_code code }) enc past l
            may.open_stream
            (record {
              counted = t.counted;
              stopped = ground (arith, eq_refl m);
              code_of = ground (arith, eq_refl m);
              listed = t.listed;
            })
            refl refl
            (λ j x q k.
              widen models (model_error m (safe_code code) (request_id request)) past j x refl
                (ground (arith, q)) (ground (arith, q)) k)))
