-- ===== src/Generation/Lifecycle/Exclusive.antt =====
-- A granted claim, and the claims of the same generation after it.
use porsche.Prelude.{
  ℕ, ◌-◌, ◌≡◌, ◌≢◌, refl, String, Bool, true, false, not, ◌||◌, Option, none, some, List, [], ◌∷◌,
  arith, if◌then◌else◌, Option-cases, inl, inr, ltb, subst, sym,
}
use porsche.Prelude.Int.{ℤ}
use porsche.Generation.Identity.{valid_identity, max_safe_integer}
use porsche.Generation.Snapshot.{Mode, Snapshot, valid_input}
use porsche.Generation.Changes.{invalid, lease_duration}
use porsche.Generation.Codec.{Codec}
use porsche.Generation.Store.{Cell, encode, decode}
use porsche.Generation.Claim.{
  claim, claim_script, claim_stored, claim_reply, claimed, enriched, ClaimReply, granted,
  claim_refused, tombstone_time,
}
use porsche.Generation.Lifecycle.{Op, apply, history}
use porsche.Generation.Lifecycle.Evolution.{Evolves, stays, born, moves, fills, decode-encode}
use porsche.Generation.Lifecycle.Applied.{apply-Evolves}
use porsche.Generation.Lifecycle.Births.{IsStarted, claimed-IsStarted}

module _ (c : Codec) where
  open c use {Raw, marshal}

  claim_reply-granted :
      (id : String) (x : Option Snapshot) (b : Bool) (s : Snapshot)
      → claim_reply c id x b ≡ granted s
      → (x ≡ some s) × (b ≡ true)
  claim_reply-granted id none b s h = absurd (ground arith)
  claim_reply-granted id (some t) b s h = ground arith

  script-created :
      (id : String) (fresh old : Raw) (next : ℕ → Raw)
      → (claim_script c id fresh next (some old)).1 ≡ false
  unfolding claim_script
  script-created id fresh old next = elim (Option-cases (tombstone_time c id old)) [
    | inl p ↦ rw p refl
    | inr (t, p) ↦ rw p refl
  ]

  encode-marshal : (s : Snapshot) (raw : Raw) → encode c s ≡ some raw → raw ≡ marshal s
  unfolding encode
  encode-marshal s raw h = ground arith

  -- What a granted claim has done.
  Created : Snapshot → Raw → Cell c → Snapshot → Cell c → Type 0
  Created fresh_record fresh cell s cell' =
      (cell ≡ none) × (s ≡ fresh_record) × (cell' ≡ some fresh)

  script-granted :
      (id : String) (next : ℕ → Raw) (fresh_record : Snapshot) (fresh : Raw) (other : Option Raw)
      (cell : Cell c) (s : Snapshot)
      → encode c fresh_record ≡ some fresh
      → (claim_stored c id next (some fresh) other cell).1 ≡ granted s
      → Created fresh_record fresh cell s (claim_stored c id next (some fresh) other cell).0
  unfolding claim_script Created
  script-granted id next r fresh none cell s e h = absurd (ground arith)
  script-granted id next r fresh (some _) none s e h =
      let (p, _) = claim_reply-granted id (decode c fresh) true s h in
      (refl, ground (arith, p, decode-encode c r fresh e), refl)
  script-granted id next r fresh (some _) (some old) s e h =
      let (stored, created) = claim_script c id fresh next (some old) in
      let (_, p) = claim_reply-granted id (decode c stored) created s h in
      absurd (ground (arith, p, script-created id fresh old next))

  stored-granted :
      (id : String) (next : ℕ → Raw) (r : Snapshot) (other : Option Raw) (cell : Cell c)
      (s : Snapshot)
      → (claim_stored c id next (encode c r) other cell).1 ≡ granted s
      → Created r (marshal r) cell s (claim_stored c id next (encode c r) other cell).0
  stored-granted id next r other cell s h = go (encode c r) refl h
    where
      go :
          (x : Option Raw)
          → encode c r ≡ x
          → (claim_stored c id next x other cell).1 ≡ granted s
          → Created r (marshal r) cell s (claim_stored c id next x other cell).0
      go none e g = absurd (ground arith)
      go (some fresh) e g =
          subst (λ (x : Raw). Created r x cell s (claim_stored c id next (some fresh) other cell).0)
            (encode-marshal r fresh e) (script-granted id next r fresh other cell s e g)

  unless-granted :
      (b : Bool) (cell : Cell c) (x : Cell c × ClaimReply) (s : Snapshot)
      → (if b then (cell, claim_refused invalid) else x).1 ≡ granted s
      → ((if b then (cell, claim_refused invalid) else x) ≡ x) × (x.1 ≡ granted s)
  unless-granted true cell x s h = absurd (ground arith)
  unless-granted false cell x s h = (refl, h)

  claim-claimed :
      (u : ℤ) (id : String) (mode : Mode) (models : List String) (now : ℕ) (d : String)
      (cell : Cell c) (s : Snapshot)
      → (claim c u id mode models now d cell).1 ≡ granted s
      → (cell ≡ none)
        × (s ≡ claimed id mode models now d)
        × ((claim c u id mode models now d cell).0 ≡ some (marshal s))
  unfolding claim Created
  claim-claimed u id mode models now d cell s h =
      let (p, h₁) =
        unless-granted
          (not (valid_identity u id)
            || not (valid_input id mode models now)
            || ltb (max_safe_integer - lease_duration) now)
          cell _ s h in
      let (q, r, w) =
        stored-granted id (λ at. marshal (enriched id mode models at))
          (claimed id mode models now d) (encode c (enriched id mode models now)) cell s h₁ in
      (q, r, ground (arith, p, r, w))

  -- A claim that is granted found no record, and leaves the record that it answers with: of the
  -- generation, mode and models asked for, running with every model from 0 since the time of the
  -- claim, owned by the token's digest for a lease of 30 seconds.
  pub claim-granted :
      (u : ℤ) (id : String) (mode : Mode) (models : List String) (now : ℕ) (d : String)
      (cell : Cell c) (s : Snapshot)
      → (claim c u id mode models now d cell).1 ≡ granted s
      → (cell ≡ none)
        × ((claim c u id mode models now d cell).0 ≡ some (marshal s))
        × (s.generation_id ≡ id)
        × (s.mode ≡ mode)
        × (s.models ≡ models)
        × (s.lease_owner ≡ d)
        × IsStarted s now
  unfolding claimed
  claim-granted u id mode models now d cell s h =
      let (p, q, r) = claim-claimed u id mode models now d cell s h in
      (
        p,
        r,
        ground (arith, q),
        ground (arith, q),
        ground (arith, q),
        ground (arith, q),
        subst (λ (x : Snapshot). IsStarted x now) (sym q) (claimed-IsStarted id mode models now d),
      )

  IsStored : Cell c → Type 0
  IsStored cell = (raw : Raw) × (cell ≡ some raw)

  Evolves-IsStored : (cell cell' : Cell c) → Evolves c cell cell' → IsStored cell → IsStored cell'
  unfolding IsStored
  Evolves-IsStored cell cell' (stays p) (raw, q) = (raw, ground (arith, p, q))
  Evolves-IsStored cell cell' (born t new now p q r k) _ = (new, q)
  Evolves-IsStored cell cell' (moves t t' old new p q r k m) _ = (new, q)
  Evolves-IsStored cell cell' (fills t t' at p v k h h' i) _ = (marshal t', k)

  history-IsStored :
      (u : ℤ) (id : String) (os : List (Op c × Cell c)) (cell : Cell c)
      → IsStored cell
      → IsStored (history c u id os cell)
  unfolding history
  history-IsStored u id [] cell h = h
  history-IsStored u id ((o, read) ∷ os) cell h =
      history-IsStored u id os (apply c u id o read cell)
        (Evolves-IsStored cell (apply c u id o read cell) (apply-Evolves c u id o read cell) h)

  -- After a granted claim, whatever operations follow, by whomever and on however old a reading, no
  -- claim of the same generation is granted.
  pub granted_once :
      (u : ℤ) (id : String) (mode mode' : Mode) (models models' : List String) (now now' : ℕ)
      (d d' : String) (cell : Cell c) (os : List (Op c × Cell c)) (s s' : Snapshot)
      → (claim c u id mode models now d cell).1 ≡ granted s
      → (claim c u id mode' models' now' d'
          (history c u id os (claim c u id mode models now d cell).0)).1
        ≢ granted s'
  unfolding IsStored
  granted_once u id mode mode' models models' now now' d d' cell os s s' h h' =
      let (_, _, w) = claim-claimed u id mode models now d cell s h in
      let (empty, _, _) =
        claim-claimed u id mode' models' now' d'
          (history c u id os (claim c u id mode models now d cell).0) s' h' in
      let (raw, kept) =
        history-IsStored u id os (claim c u id mode models now d cell).0 (marshal s, w) in
      ground (arith, empty, kept)
