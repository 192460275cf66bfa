-- ===== src/Generation/Store.antt =====
-- internal/service/platform_generation_store.go and platform_generation_store_control.go: the
-- operations on the Redis record of one generation. A cell is the value of the generation's key,
-- and other keys are not touched. An operation that reads and then writes by compare-and-set is a
-- function of two cells, what its GET read and what its script finds, since other clients may write
-- in between; it returns the cell that the script leaves. The Lua scripts run atomically.
--
-- Not modelled: transport errors of Redis, the expiry of a key, nil receivers, and the contents of
-- lease tokens, whose digest is an argument (a token that is malformed is refused before any read).
use porsche.Prelude.{
  ℕ, String, Bool, true, false, not, ◌&&◌, ◌||◌, Option, none, some, str_eq, ltb, leb,
  if◌then◌else◌, Result, ok, err,
}
use porsche.Prelude.Int.{ℤ}
use porsche.Generation.Identity.{valid_identity, safe_integer}
use porsche.Generation.Snapshot.{Snapshot, valid_snapshot}
use porsche.Generation.Changes.{StoreError, invalid, conflict, not_found, Change, settle, owned}
use porsche.Generation.Codec.{Codec}

-- A snapshot, and the error of Go's pair if there is one.
pub data Reply : Type 0 where
  done : Snapshot → Reply
  refused : StoreError → Reply

abbrev pub max_record_bytes : ℕ
max_record_bytes = 32768

module _ (c : Codec) where
  open c use {Raw, same, size, marshal, parse}

  abbrev pub Cell : Type 0
  Cell = Option Raw

  -- `encodePlatformGeneration`.
  unfoldable pub encode : Snapshot → Option Raw
  encode s =
      if valid_snapshot s && leb (size (marshal s)) max_record_bytes then some (marshal s) else none

  abbrev checked : Option Snapshot → Option Snapshot
  checked none = none
  checked (some s) = if valid_snapshot s then some s else none

  -- `decodePlatformGeneration`.
  unfoldable pub decode : Raw → Option Snapshot
  decode raw = if leb (size raw) max_record_bytes then checked (parse raw) else none

  -- `platformGenerationCASScript`: the cell that it leaves, and whether it wrote.
  unfoldable pub cas : Raw → Raw → Cell → Cell × Bool
  cas expected next none = (none, false)
  cas expected next (some old) =
      if not (same old expected) then (some old, false) else (some next, true)

  -- The reply to a script's result: what is stored is read back.
  abbrev reply_of : Cell → Bool → Reply
  reply_of none b = refused conflict
  reply_of (some raw) b = elim (decode raw) [
    | none ↦ refused invalid
    | some s ↦ if b then done s else refused conflict
  ]

  -- The write of `mutate`, with the record that it read.
  unfoldable pub write : Raw → Option Raw → Cell → Cell × Reply
  unfolding cas decode
  write read none cell = (cell, refused invalid)
  write read (some next) cell =
      let (cell', wrote) = cas read next cell in (cell', reply_of cell' wrote)

  abbrev pub written : Raw → ℕ → Result StoreError Snapshot → Cell → Cell × Reply
  written read now (err e) cell = (cell, refused e)
  written read now (ok s) cell = write read (encode (settle now s)) cell

  abbrev pub mutate_found : String → ℕ → Change → Raw → Option Snapshot → Cell → Cell × Reply
  mutate_found id now change read none cell = (cell, refused invalid)
  mutate_found id now change read (some s) cell =
      if not (str_eq s.generation_id id)
      then (cell, refused invalid)
      else if ltb now s.updated_at
      then (cell, refused conflict)
      else written read now (change s) cell

  -- `mutate`: `read` is what GET returned, `cell` what the script finds.
  unfoldable pub mutate : ℤ → String → ℕ → Change → Cell → Cell → Cell × Reply
  unfolding write encode decode
  mutate user_id id now change none cell =
      if not (valid_identity user_id id) || not (safe_integer now)
      then (cell, refused invalid)
      else (cell, refused not_found)
  mutate user_id id now change (some read) cell =
      if not (valid_identity user_id id) || not (safe_integer now)
      then (cell, refused invalid)
      else mutate_found id now change read (decode read) cell

  -- `mutateOwned`; `well_formed` is the test of the lease token, `digest` its digest.
  unfoldable pub mutate_owned : ℤ → String → Bool → String → ℕ → Change → Cell → Cell → Cell × Reply
  unfolding mutate
  mutate_owned user_id id well_formed digest now change read cell =
      if not well_formed
      then (cell, refused invalid)
      else mutate user_id id now (owned digest now change) read cell
