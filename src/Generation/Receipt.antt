-- ===== src/Generation/Receipt.antt =====
-- internal/service/platform_generation_store.go, `platformGenerationGUIDMapMatches`: the test by
-- which a repeated completion is recognised, against what `Complete` stores.
use porsche.Prelude.{
  ℕ, suc, ◌≡◌, ◌∙◌, String, Bool, true, false, not, Option, none, some, List, [], ◌∷◌, str_eq,
  eq_iff, eq_refl, ◌==◌, if◌then◌else◌, length, contains, ok, arith, Bool-cases, inl, inr,
  Result-cases,
}
use porsche.Prelude.Dict
use porsche.Prelude.Dict.{Dict, get-put}
use porsche.Generation.Snapshot.{ModelState, Snapshot, is_completed, state_of}
use porsche.Generation.Changes.{assign_guids, complete, text_of, model_of}

-- The loop: the number of completed models, unless one has another message.
unfoldable pub matching : Dict ModelState → Dict String → List String → ℕ → Option ℕ
matching states expected [] n = some n
matching states expected (m ∷ ms) n =
    let found = Dict.get states m in
    let skip = matching states expected ms n in
    let next = matching states expected ms (suc n) in
    if not (is_completed (state_of found))
    then skip
    else if not (str_eq (text_of (Dict.get expected m)) (model_of found).message_guid)
    then none
    else next

abbrev agrees_with : ℕ → Option ℕ → Bool
agrees_with n none = false
agrees_with n (some k) = k == n

-- `platformGenerationGUIDMapMatches`.
unfoldable pub guid_map_matches : Snapshot → Dict String → Bool
unfolding matching
guid_map_matches s expected =
    agrees_with (length expected) (matching s.model_states expected s.models 0)

abbrev given : Dict String → Dict ModelState → String → ModelState
given guids st m = record (model_of (Dict.get st m)) { message_guid = text_of (Dict.get guids m) }

-- One model's turn in `Complete`, taken apart.
assign_guids-step :
    (guids : Dict String) (m : String) (ms seen : List String) (n k : ℕ) (st st' : Dict ModelState)
    → assign_guids guids (m ∷ ms) seen n st ≡ ok (k, st')
    → is_completed (state_of (Dict.get st m)) ≡ true
    → (contains seen (text_of (Dict.get guids m)) ≡ false)
      × (assign_guids guids ms
            (text_of (Dict.get guids m) ∷ seen)
            (suc n)
            (Dict.put st m (given guids st m))
          ≡ ok (k, st'))
unfolding assign_guids
assign_guids-step guids m ms seen n k st st' h c = ground (arith, c)

assign_guids-skip :
    (guids : Dict String) (m : String) (ms seen : List String) (n k : ℕ) (st st' : Dict ModelState)
    → assign_guids guids (m ∷ ms) seen n st ≡ ok (k, st')
    → is_completed (state_of (Dict.get st m)) ≡ false
    → assign_guids guids ms seen n st ≡ ok (k, st')
unfolding assign_guids
assign_guids-skip guids m ms seen n k st st' h c = ground (arith, c)

-- A model whose message is already given is not written again.
assign_guids-get :
    (guids : Dict String) (ms seen : List String) (n k : ℕ) (st st' : Dict ModelState) (j : String)
    → assign_guids guids ms seen n st ≡ ok (k, st')
    → contains seen (text_of (Dict.get guids j)) ≡ true
    → Dict.get st' j ≡ Dict.get st j
unfolding contains assign_guids
assign_guids-get guids [] seen n k st st' j h c = ground arith
assign_guids-get guids (m ∷ ms) seen n k st st' j h c =
    elim (Bool-cases (is_completed (state_of (Dict.get st m)))) [
      | inl p ↦
          let (q, r) = assign_guids-step guids m ms seen n k st st' h p in
          assign_guids-get guids ms (text_of (Dict.get guids m) ∷ seen) (suc n) k
            (Dict.put st m (given guids st m)) st' j r (ground (arith, c))
          ∙ untouched q
      | inr p ↦
          assign_guids-get guids ms seen n k st st' j
            (assign_guids-skip guids m ms seen n k st st' h p) c
    ]
  where
    untouched :
        contains seen (text_of (Dict.get guids m)) ≡ false
        → Dict.get (Dict.put st m (given guids st m)) j ≡ Dict.get st j
    untouched q = elim (Bool-cases (str_eq m j)) [
      | inl e ↦ let same : m ≡ j = (eq_iff m j).0 e in absurd (ground (arith, q, c, same))
      | inr e ↦ ground (arith, e, get-put st m j (given guids st m))
    ]

completed_given :
    (guids : Dict String) (st : Dict ModelState) (m : String)
    → is_completed (state_of (Dict.get st m)) ≡ true
    → is_completed (given guids st m).state ≡ true
completed_given guids st m h = go (Dict.get st m) h
  where
    go :
        (x : Option ModelState)
        → is_completed (state_of x) ≡ true
        → is_completed (model_of x).state ≡ true
    go none h = absurd (ground arith)
    go (some x) h = h

put-is_completed :
    (guids : Dict String) (st : Dict ModelState) (m j : String)
    → is_completed (state_of (Dict.get st m)) ≡ true
    → is_completed (state_of (Dict.get (Dict.put st m (given guids st m)) j))
      ≡ is_completed (state_of (Dict.get st j))
put-is_completed guids st m j h = elim (Bool-cases (str_eq m j)) [
  | inl e ↦
      let same : m ≡ j = (eq_iff m j).0 e in
      ground (arith, e, get-put st m j (given guids st m), completed_given guids st m h, h, same)
  | inr e ↦ ground (arith, e, get-put st m j (given guids st m))
]

-- The models that are completed stay so, and no other becomes so.
assign_guids-is_completed :
    (guids : Dict String) (ms seen : List String) (n k : ℕ) (st st' : Dict ModelState) (j : String)
    → assign_guids guids ms seen n st ≡ ok (k, st')
    → is_completed (state_of (Dict.get st' j)) ≡ is_completed (state_of (Dict.get st j))
unfolding assign_guids
assign_guids-is_completed guids [] seen n k st st' j h = ground arith
assign_guids-is_completed guids (m ∷ ms) seen n k st st' j h =
    elim (Bool-cases (is_completed (state_of (Dict.get st m)))) [
      | inl p ↦
          let (q, r) = assign_guids-step guids m ms seen n k st st' h p in
          assign_guids-is_completed guids ms (text_of (Dict.get guids m) ∷ seen) (suc n) k
            (Dict.put st m (given guids st m)) st' j r
          ∙ put-is_completed guids st m j p
      | inr p ↦
          assign_guids-is_completed guids ms seen n k st st' j
            (assign_guids-skip guids m ms seen n k st st' h p)
    ]

assign_guids-matching :
    (guids : Dict String) (ms seen : List String) (n k : ℕ) (st st' : Dict ModelState)
    → assign_guids guids ms seen n st ≡ ok (k, st')
    → matching st' guids ms n ≡ some k
unfolding matching assign_guids contains
assign_guids-matching guids [] seen n k st st' h = ground arith
assign_guids-matching guids (m ∷ ms) seen n k st st' h =
    elim (Bool-cases (is_completed (state_of (Dict.get st m)))) [
      | inl p ↦
          let (q, r) = assign_guids-step guids m ms seen n k st st' h p in
          let st₁ = Dict.put st m (given guids st m) in
          let rest =
            assign_guids-matching guids ms (text_of (Dict.get guids m) ∷ seen) (suc n) k st₁ st'
              r in
          let kept =
            assign_guids-get guids ms (text_of (Dict.get guids m) ∷ seen) (suc n) k st₁ st' m r
              (ground (arith, eq_refl (text_of (Dict.get guids m)))) in
          let here : Dict.get st₁ m ≡ some (given guids st m) =
            ground (arith, get-put st m m (given guids st m), eq_refl m) in
          ground (
            arith,
            kept,
            here,
            rest,
            completed_given guids st m p,
            eq_refl (text_of (Dict.get guids m)),
          )
      | inr p ↦
          let h' = assign_guids-skip guids m ms seen n k st st' h p in
          ground (
            arith,
            p,
            assign_guids-is_completed guids ms seen n k st st' m h',
            assign_guids-matching guids ms seen n k st st' h',
          )
    ]

-- What `Complete` makes of a record matches the messages that it was given.
pub complete-guid_map_matches :
    (guids : Dict String) (s t : Snapshot)
    → complete guids s ≡ ok t
    → guid_map_matches t guids ≡ true
unfolding complete guid_map_matches
complete-guid_map_matches guids s t h =
    elim (Result-cases (assign_guids guids s.models [] 0 s.model_states)) [
      | inl ((k, states), p) ↦
          ground (arith, p, h, assign_guids-matching guids s.models [] 0 k s.model_states states p)
      | inr (e, p) ↦ absurd (ground (arith, p, h))
    ]
