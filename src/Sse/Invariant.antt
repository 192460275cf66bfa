-- ===== src/Sse/Invariant.antt =====
-- What the encoder's fields say of the events that it has emitted.
use porsche.Prelude.{
  ℕ, suc, ◌≡◌, refl, ◌⊎◌, inl, inr, String, Bool, true, false, not, ◌||◌, Option, none, some, List,
  [], ◌∷◌, str_eq, eq_iff, subst, if◌then◌else◌, In, arith, Bool-cases,
}
use porsche.Prelude.Dict
use porsche.Prelude.Dict.{Dict, get-put}
use porsche.Sse.{
  SseError, meta_required, invalid_event, terminal_error, Event, Stream, Encoder, fail, failed,
  present,
}
use porsche.Sse.Methods.{frame, with_stream, ready_model, put_stream, emit, fits}
use porsche.Sse.Trace.{deltas, ended, broken, started, finished, IsOpen, MaySpeak, Follows, IsTrace}

-- A model's entry says what its events say.
pub record Tracks (models : List String) (past : List Event) (m : String) (st : Stream)
    : Type 0 where
  pub counted : st.next_seq ≡ suc (deltas m past)
  pub stopped : st.is_terminal ≡ ended m past
  pub code_of : broken m past ≡ (if st.is_failed then some st.code else none)
  pub listed : In m models

pub record Live (models : List String) (enc : Encoder) (past : List Event) : Type 0 where
  pub healthy : enc.error ≡ none
  pub own_models : enc.models ≡ models
  pub sent : enc.meta_sent ≡ started past
  pub over : enc.terminal ≡ finished past
  pub unsent : (enc.meta_sent ≡ true) ⊎ ((past ≡ []) × (enc.terminal ≡ false))
  pub tracked :
      (m : String) (st : Stream) → Dict.get enc.states m ≡ some st → Tracks models past m st
  pub entered : (m : String) → In m models → (st : Stream) × (Dict.get enc.states m ≡ some st)

-- Either an error is kept, or the fields agree with the events, which follow the rules.
pub record Agrees (models : List String) (enc : Encoder) (past : List Event) : Type 0 where
  pub trace : IsTrace models past
  pub status : (present enc.error ≡ true) ⊎ Live models enc past

-- The same after a call.
abbrev pub After : List String → Encoder × Option Event → List Event → Type 0
After models x past = Agrees models x.0 (emit x.1 past)

pub failed-After :
    (models : List String) (e : SseError) (enc : Encoder) (past : List Event)
    → IsTrace models past
    → After models (failed e enc) past
unfolding fail
failed-After models e enc past t = record { trace = t; status = inl (ground arith) }

pub unless-After :
    (models : List String) (b : Bool) (e : SseError) (enc : Encoder) (x : Encoder × Option Event)
    (past : List Event)
    → IsTrace models past
    → (b ≡ false → After models x past)
    → After models (if b then failed e enc else x) past
unless-After models true e enc x past t k = failed-After models e enc past t
unless-After models false e enc x past t k = k refl

-- An event that is not of a model changes nothing that its entry says.
pub widen :
    (models : List String) (ev : Event) (past : List Event) (m : String) (st : Stream)
    → deltas m (ev ∷ past) ≡ deltas m past
    → ended m (ev ∷ past) ≡ ended m past
    → broken m (ev ∷ past) ≡ broken m past
    → Tracks models past m st
    → Tracks models (ev ∷ past) m st
widen models ev past m st p q r t = record {
  counted = ground (arith, p, t.counted);
  stopped = ground (arith, q, t.stopped);
  code_of = ground (arith, r, t.code_of);
  listed = t.listed;
}

module _ (frame_length : String → Event → Option ℕ) (models : List String) where
  -- An event that may follow, with fields that take account of it.
  pub frame-After :
      (ev : Event) (enc : Encoder) (past : List Event)
      → IsTrace models past
      → Follows models past ev
      → Live models enc (ev ∷ past)
      → After models (frame frame_length ev enc) past
  unfolding frame
  frame-After ev enc past t f l =
      go (present enc.error) (fits (frame_length enc.generation_id ev)) (ground (arith, l.healthy))
    where
      go :
          (b c : Bool)
          → b ≡ false
          → After models
              (if b then (enc, none) else if c then (enc, some ev) else failed invalid_event enc)
              past
      go true c p = absurd (ground arith)
      go false true p = record { trace = (f, t); status = inr l }
      go false false p = failed-After models invalid_event enc past t

  found-After :
      (m : String) (next : Stream → Encoder × Option Event) (enc : Encoder) (past : List Event)
      → Agrees models enc past
      → Live models enc past
      → started past ≡ true
      → finished past ≡ false
      → ((st : Stream)
          → Dict.get enc.states m ≡ some st
          → Tracks models past m st
          → MaySpeak models m past
          → After models (next st) past)
      → (found : Option Stream) → Dict.get enc.states m ≡ found
      → After models (with_stream found next enc) past
  found-After m next enc past a l s o k none p = failed-After models invalid_event enc past a.trace
  found-After m next enc past a l s o k (some st) p =
      let t = l.tracked m st p in
      unless-After models st.is_terminal invalid_event enc (next st) past a.trace (λ q.
        k st p t (record {
          open_stream = record { begun = s; unended = o };
          known = t.listed;
          speaking = ground (arith, q, t.stopped);
        }))

  -- A model that is ready may speak, and its entry says what its events say.
  pub ready_model-After :
      (m : String) (next : Stream → Encoder × Option Event) (enc : Encoder) (past : List Event)
      → Agrees models enc past
      → (Live models enc past
          → (st : Stream) → Dict.get enc.states m ≡ some st
          → Tracks models past m st
          → MaySpeak models m past
          → After models (next st) past)
      → After models (ready_model frame_length m next enc) past
  unfolding ready_model
  ready_model-After m next enc past a k = go a.status
    where
      go :
          (present enc.error ≡ true) ⊎ Live models enc past
          → After models (ready_model frame_length m next enc) past
      go (inl e) = rw e (failed-After models terminal_error enc past a.trace)
      go (inr l) =
          unless-After models (present enc.error || enc.terminal) terminal_error enc _ past a.trace
            (λ p. unless-After models (not enc.meta_sent) meta_required enc _ past a.trace (λ q.
              found-After m next enc past a l (ground (arith, q, l.sent))
                (ground (arith, p, l.over)) (k l) (Dict.get enc.states m) refl))

  -- The entry of a model that speaks is replaced, the others are as they were.
  pub put_stream-Live :
      (ev : Event) (m : String) (st : Stream) (enc : Encoder) (past : List Event)
      → Live models enc past
      → IsOpen past
      → Tracks models (ev ∷ past) m st
      → started (ev ∷ past) ≡ started past
      → finished (ev ∷ past) ≡ finished past
      → ((j : String) (s : Stream)
          → str_eq m j ≡ false
          → Tracks models past j s
          → Tracks models (ev ∷ past) j s)
      → Live models (put_stream m st enc) (ev ∷ past)
  put_stream-Live ev m st enc past l o t s f k = record {
    healthy = l.healthy;
    own_models = l.own_models;
    sent = ground (arith, l.sent, s);
    over = ground (arith, l.over, f);
    unsent = inl (ground (arith, l.sent, o.begun));
    tracked = tracks;
    entered = enters;
  }
    where
      tracks :
          (j : String) (x : Stream)
          → Dict.get (Dict.put enc.states m st) j ≡ some x
          → Tracks models (ev ∷ past) j x
      tracks j x p = elim (Bool-cases (str_eq m j)) [
        | inl q ↦
            subst (λ (y : Stream). Tracks models (ev ∷ past) j y)
              (ground (arith, q, get-put enc.states m j st, p))
              (subst (λ (i : String). Tracks models (ev ∷ past) i st) ((eq_iff m j).0 q) t)
        | inr q ↦ k j x q (l.tracked j x (ground (arith, q, get-put enc.states m j st, p)))
      ]

      enters :
          (j : String)
          → In j models
          → (x : Stream) × (Dict.get (Dict.put enc.states m st) j ≡ some x)
      enters j i = elim (Bool-cases (str_eq m j)) [
        | inl q ↦ (st, ground (arith, q, get-put enc.states m j st))
        | inr q ↦ let (x, e) = l.entered j i in (x, ground (arith, q, get-put enc.states m j st, e))
      ]
