-- ===== src/Generation/Samples.antt =====
-- A registry with one generation that is cancelled, unregistered and shut down, and a record that is
-- completed.
use porsche.Prelude.{ℕ, ◌+◌, ◌≤◌, String, ◌≡◌, refl, Bool, true, false, some, List, [], ◌∷◌}
use porsche.Prelude.Int.{pos}
use porsche.Generation.Identity.{canonical_uuid, valid_identity}
use porsche.Generation.Registry.{
  World, Op, begins, releases_at, checks, commits, cancels, unregisters, closes, run, start, step,
  begin_admission, release, register_check, register_commit, cancel, unregister, close, count,
  pending, flag, set_flag, find, keys_eq, Entry, closed_drain, open_drain,
}
use porsche.Generation.Registry.Safety.{Inv, run_never_panics}
use porsche.Generation.Registry.Calls.{registered, calls-le-registered}
use porsche.Prelude.Dict
use porsche.Prelude.Dict.{Dict}
use porsche.Prelude.{ok, contains}
use porsche.Generation.Identity.{message_guid, decimal_value}
use porsche.Generation.Snapshot.{Snapshot, single, committing, completed}
use porsche.Generation.Changes.{complete, assign_guids}
use porsche.Generation.Receipt.{guid_map_matches, complete-guid_map_matches}

abbrev uuid : String
uuid = "0b5f2f6e-30b8-4d5c-9a51-0d2a6f1c7e42"

uuid_canonical : canonical_uuid uuid ≡ true
unfolding canonical_uuid
uuid_canonical = refl

-- An admission, a registration, a cancellation, the same again, and the end of both.
abbrev life : List Op
life =
    begins
    ∷ checks (pos 7) uuid (some 42)
    ∷ commits (pos 7) uuid 42 "t"
    ∷ releases_at 0
    ∷ cancels (pos 7) uuid
    ∷ cancels (pos 7) uuid
    ∷ closes
    ∷ unregisters (pos 7) uuid "t" true
    ∷ []

abbrev after : World
after = record {
  registry = record { entries = []; closed = true; admissions = 0; drained = closed_drain };
  releases = true ∷ [];
  calls = 42 ∷ [];
}

life_ends : run life start ≡ some after
unfolding run step begin_admission release register_check register_commit cancel unregister close
    find keys_eq flag set_flag valid_identity
life_ends = refl

run_never_panics_example : (w : World) × (run life start ≡ some w) × Inv w
run_never_panics_example = run_never_panics life

calls-le-registered_example : count 42 after.calls + pending 42 after.entries ≤ registered 42 life
calls-le-registered_example = calls-le-registered 42 life after life_ends

-- Two entries, one of them cancelled before the shutdown.
abbrev entry : String → ℕ → Bool → Entry
entry t c b = record {
  key = record { user_id = pos c; generation_id = uuid };
  token = t;
  cancel = c;
  invoked = b;
}

abbrev busy : World
busy = record {
  registry = record {
    entries = entry "a" 1 true ∷ entry "b" 2 false ∷ [];
    closed = false;
    admissions = 0;
    drained = open_drain;
  };
  releases = [];
  calls = 1 ∷ [];
}

abbrev settled : World
settled = record {
  registry = record {
    entries = entry "a" 1 true ∷ entry "b" 2 true ∷ [];
    closed = true;
    admissions = 0;
    drained = open_drain;
  };
  releases = [];
  calls = 1 ∷ 2 ∷ [];
}

abbrev ready : Snapshot
ready = record {
  generation_id = uuid;
  mode = single;
  models = "gpt" ∷ [];
  state = committing;
  model_states =
      ("gpt", record { seq = 1; state = completed; error_code = ""; message_guid = "" }) ∷ [];
  created_at = 1000;
  updated_at = 2000;
  error_code = "";
  lease_owner = "";
  lease_until = 0;
}

abbrev finished : Snapshot
finished = record ready {
  state = completed;
  model_states =
      ("gpt", record { seq = 1; state = completed; error_code = ""; message_guid = "77" }) ∷ [];
}

ready_completes : complete (("gpt", "77") ∷ []) ready ≡ ok finished
unfolding complete assign_guids message_guid decimal_value contains Dict.get Dict.put
ready_completes = refl

complete-guid_map_matches_example : guid_map_matches finished (("gpt", "77") ∷ []) ≡ true
complete-guid_map_matches_example =
    complete-guid_map_matches (("gpt", "77") ∷ []) ready finished ready_completes
