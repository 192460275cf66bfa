-- ===== src/Sse.antt =====
-- internal/service/platform_sse_v2.go: the encoder of the event stream. Every method takes the
-- encoder's lock, so an execution is a sequence of whole calls. A frame is represented by its event
-- and payload; the length of its text, or none where encoding/json refuses the payload, is the
-- parameter `frame_length`. The order in which `DoneCompare` visits the map of tokens does not
-- show: the first wrong entry fails as any other would.
pub mod Methods
pub mod Trace
pub mod Invariant
pub mod Report
pub mod Speaking
pub mod Ending
pub mod Grammar
pub mod Progress
mod Samples
use porsche.Prelude.{
  ℕ, suc, ◌+◌, ◌-◌, String, Bool, true, false, not, ◌&&◌, ◌||◌, Option, none, some, List, [], ◌∷◌,
  str_eq, ltb, leb, ◌==◌, if◌then◌else◌, length, contains, Result, ok, err,
}
use porsche.Prelude.Dict
use porsche.Prelude.Dict.{Dict}
use porsche.Generation.Identity.{
  codes, canonical_uuid, safe_integer, identifier, model_identifier, utf8_length,
}
use porsche.Generation.Snapshot.{stable_code, max_models}

pub data SseError : Type 0 where
  meta_required sequence invalid_event models_running terminal_error : SseError

-- `platformSSEV2ModelState`.
pub record Stream : Type 0 where
  pub next_seq : ℕ
  pub is_terminal : Bool
  pub is_failed : Bool
  pub code : String

pub record Encoder : Type 0 where
  pub generation_id : String
  pub models : List String
  pub states : Dict Stream
  pub meta_sent : Bool
  pub terminal : Bool
  pub error : Option SseError

-- What `DoneCompare` reports of a model.
pub data Outcome : Type 0 where
  failed_with : String → Outcome
  completed_with : ℕ → Outcome

-- The frames, by their payloads; the generation and the schema are the same in all.
pub data Event : Type 0 where
  meta : String → List String → Event
  delta : String → ℕ → String → Event
  model_done : String → ℕ → Event
  model_error : String → String → String → Event
  done_single : String → ℕ → ℕ → Event
  done_compare : String → ℕ → Dict Outcome → Event
  error_event : String → String → Event

unfoldable pub fresh_stream : Stream
fresh_stream = record { next_seq = 1; is_terminal = false; is_failed = false; code = "" }

abbrev pub present {ℓ} : {A : Type ℓ} → Option A → Bool
present none = false
present (some _) = true

-- The loop of `NewPlatformSSEV2Encoder`.
unfoldable pub fresh_streams : List String → Dict Stream → Result SseError (Dict Stream)
fresh_streams [] states = ok states
fresh_streams (m ∷ ms) states =
    let rest = fresh_streams ms (Dict.put states m fresh_stream) in
    if not (model_identifier m)
    then err invalid_event
    else if present (Dict.get states m)
    then err invalid_event
    else rest

abbrev pub encoder_with :
    String → List String → Result SseError (Dict Stream) → Result SseError Encoder
encoder_with id models (err e) = err e
encoder_with id models (ok states) = ok (record {
  generation_id = id;
  models = models;
  states = states;
  meta_sent = false;
  terminal = false;
  error = none;
})

-- `NewPlatformSSEV2Encoder`.
unfoldable pub new_encoder : String → List String → Result SseError Encoder
unfolding fresh_streams
new_encoder id models =
    if not (canonical_uuid id) || length models == 0 || ltb max_models (length models)
    then err invalid_event
    else encoder_with id models (fresh_streams models [])

-- `platformSSEV2Code`.
unfoldable pub safe_code : String → String
safe_code code = if stable_code code then code else "upstream_error"

unfoldable pub is_request_char : ℕ → Bool
is_request_char c =
    leb b'a' c && leb c b'z'
    || leb b'A' c && leb c b'Z'
    || leb b'0' c && leb c b'9'
    || c == b'.'
    || c == b'_'
    || c == b'-'

unfoldable pub all_request_chars : List ℕ → Bool
all_request_chars [] = true
all_request_chars (c ∷ cs) = is_request_char c && all_request_chars cs

-- `platformSSEV2RequestID`.
unfoldable pub request_id : String → String
request_id value =
    if str_eq value "" || ltb 128 (utf8_length (codes value))
    then ""
    else if all_request_chars (codes value)
    then value
    else ""

-- `fail`.
unfoldable pub fail : SseError → Encoder → Encoder
fail e enc =
    if present enc.error
    then record enc { terminal = true }
    else record enc { terminal = true; error = some e }

abbrev pub failed : SseError → Encoder → Encoder × Option Event
failed e enc = (fail e enc, none)

abbrev pub max_frame_bytes : ℕ
max_frame_bytes = 2097152

abbrev pub max_delta_bytes : ℕ
max_delta_bytes = 1048576

-- `canComplete`'s loop; a model that is missing, which the source would panic on, is not terminal.
unfoldable pub all_terminal : Dict Stream → List String → Bool
all_terminal states [] = true
all_terminal states (m ∷ ms) =
    (elim (Dict.get states m) [ none ↦ false | some st ↦ st.is_terminal ]) && all_terminal states ms

-- `canComplete`.
unfoldable pub can_complete : Encoder → String → Bool
unfolding all_terminal
can_complete enc guid =
    not (present enc.error)
    && not enc.terminal
    && enc.meta_sent
    && identifier guid
    && all_terminal enc.states enc.models

-- The first loop of `DoneCompare`: every entry of the map is a model that did not fail.
unfoldable pub tokens_known : Dict Stream → Dict ℕ → Bool
tokens_known states [] = true
tokens_known states ((m, n) ∷ rest) =
    (elim (Dict.get states m) [ none ↦ false | some st ↦ not st.is_failed && safe_integer n ])
    && tokens_known states rest

abbrev pub outcome_of : Option Stream → Option ℕ → Option Outcome
outcome_of none _ = none
outcome_of (some st) none = if st.is_failed then some (failed_with st.code) else none
outcome_of (some st) (some n) =
    if st.is_failed
    then some (failed_with st.code)
    else if safe_integer n
    then some (completed_with n)
    else none

abbrev pub add_outcome : String → Option Outcome → Option (Dict Outcome) → Option (Dict Outcome)
add_outcome m none _ = none
add_outcome m (some o) none = none
add_outcome m (some o) (some rest) = some ((m, o) ∷ rest)

-- The second loop of `DoneCompare`: the report of every model.
unfoldable pub outcomes : Dict Stream → Dict ℕ → List String → Option (Dict Outcome)
outcomes states tokens [] = some []
outcomes states tokens (m ∷ ms) =
    add_outcome m (outcome_of (Dict.get states m) (Dict.get tokens m)) (outcomes states tokens ms)
