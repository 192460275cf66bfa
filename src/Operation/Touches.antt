-- ===== src/Operation/Touches.antt =====
-- What the transactions of internal/service/action_operation.go do to the table of operations.
use porsche.Prelude.{
  ℕ, ◌≡◌, refl, subst, inl, inr, String, Bool, true, false, ◌&&◌, Option, none, some, Option-cases,
  Bool-cases, Result-cases, List, [], ◌∷◌, ◌++◌, ok, arith, if◌then◌else◌, bind-ok, ==_self,
  eq_refl,
}
use porsche.Prelude.Int.{ℤ, leb_ℤ}
use porsche.Prelude.Table.{find_row, update, nth, append-nth, update-row}
use porsche.Intent.Actions.{Action, Descriptor, number}
use porsche.Operation.{
  Operation, pending_recovery, is_some, processing, expired, same_state, Actor, User, Session,
  can_transition, is_positive,
}
use porsche.Operation.Access.{Directory}
use porsche.Operation.Begin.{
  Store, Crypto, Request, Draw, Reply, has_key, expire_operation, expired_row, may_expire,
  answer_existing, begin_existing, begin_new, check_existing, check_new, new_operation,
}
use porsche.Operation.Requests.{
  begin, query, mark_pending_recovery, Terminal, finish, recovered, may_recover, ended, may_end,
  recover_row, recover_leased, consume, prepare, begin_found, has_prepared_key, check_query,
}
use porsche.Operation.History.{Step, begins, queries, recovers, finishes, step, run}

-- A change that keeps the key of a row, and after which it is not being processed.
IsEnding : (Operation → Operation) → Type 0
IsEnding change =
    (o : Operation)
    → ((actor : ℤ) (action : ℕ) (key : String)
        → has_key actor action key (change o) ≡ has_key actor action key o)
      × (same_state (change o).state processing ≡ false)

-- What a transaction does to the table of operations: nothing, one row ends or pauses, or a new row.
data Touches : List Operation → List Operation → Type 0 where
  same_rows : (olds news : List Operation) → news ≡ olds → Touches olds news
  changes :
      (olds news : List Operation) (i : ℕ) (test : Operation → Bool)
      (change : Operation → Operation)
      → IsEnding change
      → news ≡ update i test change olds
      → Touches olds news
  creates :
      (olds news : List Operation) (new : Operation) → news ≡ olds ++ new ∷ [] → Touches olds news

expire-Touches :
    (s s' : Store) (i : ℕ) (o : Operation) (by : Option ℤ) (now : ℤ)
    → expire_operation s i o by now ≡ ok s'
    → Touches s.operations s'.operations
unfolding expire_operation IsEnding
expire-Touches s s' i o by now h =
    changes s.operations s'.operations i (may_expire o now) (expired_row by now)
      (λ row. ((λ actor action key. refl), refl)) (ground (arith, h))

answer-Touches :
    (s s' : Store) (i : ℕ) (o : Operation) (actor_id : ℤ) (d : Descriptor) (now : ℤ) (r : Reply)
    → answer_existing s i o actor_id d now ≡ ok (r, s')
    → Touches s.operations s'.operations
answer-Touches s s' i o actor_id d now r h = elim (Bool-cases (same_state o.state expired)) [
  | inl p ↦ same_rows s.operations s'.operations (ground (arith, p, h))
  | inr p ↦ elim (Bool-cases (leb_ℤ o.query_expires_at now && can_transition o.state expired)) [
    | inr q ↦ same_rows s.operations s'.operations (ground (arith, p, q, h))
    | inl q ↦
        let by = if is_positive actor_id then some actor_id else none in
        elim (Result-cases (expire_operation s i o by now)) [
          | inr (e, t) ↦ ground (arith, p, q, t, h)
          | inl (m, t) ↦
              let k : m ≡ s' = ground (arith, p, q, t, h) in
              subst (λ x. Touches s.operations x.operations) k (expire-Touches s m i o by now t)
        ]
  ]
]

recover_leased-Touches :
    (s s' : Store) (i : ℕ) (now : ℤ) (at : Option ℤ)
    → recover_leased s i now at ≡ ok s'
    → Touches s.operations s'.operations
unfolding IsEnding
recover_leased-Touches s s' i now none h = cc
recover_leased-Touches s s' i now (some at) h =
    changes s.operations s'.operations i (may_recover at now) (recovered now)
      (λ row. ((λ actor action key. refl), refl)) (ground (arith, h))

recover_row-Touches :
    (draw : Draw) (i : ℕ) (o : Operation) (s s' : Store)
    → recover_row s i o draw ≡ ok s'
    → Touches s.operations s'.operations
recover_row-Touches draw i o s s' h = elim (Bool-cases (same_state o.state pending_recovery)) [
  | inl p ↦ expire-Touches s s' i o none draw.final_now (ground (arith, p, h))
  | inr p ↦ recover_leased-Touches s s' i draw.final_now o.lease_expires_at (ground (arith, p, h))
]

pub consume-operations :
    (s s' : Store) (v : Option ℕ) (now : ℤ) → consume s v now ≡ ok s' → s'.operations ≡ s.operations
consume-operations s s' none now h = ground (arith, h)
consume-operations s s' (some i) now h = ground (arith, h)

pub ended-state :
    (t : Terminal) (actor_id now : ℤ) (o : Operation)
    → same_state (ended t actor_id now o).state processing ≡ false
ended-state t actor_id now o = elim (Bool-cases (is_some t.failure)) [
  | inl p ↦ ground (arith, p)
  | inr p ↦ ground (arith, p)
]

existing-Touches :
    (dir : Directory) (d : Descriptor) (actor : User) (session : Session) (draw : Draw)
    (s s' : Store) (ticket request : String) (target : Option ℤ) (found : ℕ × Operation) (r : Reply)
    → begin_existing dir d actor session draw s ticket request target found ≡ ok (r, s')
    → Touches s.operations s'.operations
existing-Touches dir d actor session draw s s' ticket request target (i, o) r h =
    let (_, _, h₁) =
      bind-ok (check_existing dir d actor session draw s ticket request target o) _ h in
    answer-Touches s s' i o actor.id d draw.final_now r h₁

-- What `Begin` leaves where the key has no operation.
unfoldable pub IsCreated : Store → ℤ → ℕ → String → Reply → Store → Type 0
IsCreated s actor action key r s' =
    (new : Operation) × (s'.operations ≡ s.operations ++ new ∷ [])
    × (has_key actor action key new ≡ true)

pub new-IsCreated :
    (dir : Directory) (d : Descriptor) (actor : User) (session : Session) (draw : Draw)
    (s s' : Store) (key ticket request : String) (target : Option ℤ) (r : Reply)
    → begin_new dir d actor session draw s key ticket request target ≡ ok (r, s')
    → IsCreated s actor.id (number d.action) key r s'
unfolding IsCreated
new-IsCreated dir d actor session draw s s' key ticket request target r h =
    let (v, _, h₁) = bind-ok (check_new dir d actor session draw s ticket request target) _ h in
    (
      new_operation dir d actor session draw key request v,
      ground (arith, h₁),
      ground (arith, ==_self (number d.action), eq_refl key),
    )

begin-Touches :
    (c : Crypto) (dir : Directory) (draw : Draw) (q : Request) (s s' : Store) (r : Reply)
    → begin c dir draw q s ≡ ok (r, s')
    → Touches s.operations s'.operations
unfolding begin IsCreated
begin-Touches c dir draw q s s' r h =
    let (p, _, h₁) = bind-ok (prepare c dir draw q) _ h in
    elim (Option-cases (find_row (has_prepared_key p) s.operations)) [
      | inr (found, f) ↦
          existing-Touches dir p.descriptor p.actor p.session draw s s' p.ticket p.request p.target
            found r (subst (λ x. begin_found dir draw s p x ≡ ok (r, s')) f h₁)
      | inl f ↦
          let (new, e, _) =
            new-IsCreated dir p.descriptor p.actor p.session draw s s' p.key p.ticket p.request
              p.target r (subst (λ x. begin_found dir draw s p x ≡ ok (r, s')) f h₁) in
          creates s.operations s'.operations new e
    ]

query-Touches :
    (c : Crypto) (dir : Directory) (draw : Draw) (action : Action) (actor : Actor)
    (keys : List String) (s s' : Store) (r : Reply)
    → query c dir draw action actor keys s ≡ ok (r, s')
    → Touches s.operations s'.operations
unfolding query
query-Touches c dir draw action actor keys s s' r h =
    let ((d, actor_id, i, o), _, h₁) = bind-ok (check_query c dir draw action actor keys s) _ h in
    answer-Touches s s' i o actor_id d draw.final_now r h₁

recover-Touches :
    (draw : Draw) (i : ℕ) (s s' : Store)
    → mark_pending_recovery draw i s ≡ ok s'
    → Touches s.operations s'.operations
unfolding mark_pending_recovery
recover-Touches draw i s s' h = elim (Option-cases (nth i s.operations)) [
  | inl p ↦ ground (arith, p, h)
  | inr (o, p) ↦ recover_row-Touches draw i o s s' (ground (arith, p, h))
]

finish-Touches :
    (lease : String) (t : Terminal) (actor_id now : ℤ) (i : ℕ) (o : Operation) (s s' : Store)
    → finish lease t actor_id now i o s ≡ ok s'
    → Touches s.operations s'.operations
unfolding finish IsEnding
finish-Touches lease t actor_id now i o s s' h =
    let (m, p, h₁) = bind-ok (consume s o.verification_id now) _ h in
    let same = consume-operations s m o.verification_id now p in
    changes s.operations s'.operations i (may_end lease o) (ended t actor_id now)
      (λ row. ((λ actor action key. refl), ended-state t actor_id now row))
      (ground (arith, same, h₁))

step-Touches : (c : Crypto) (x : Step) (s : Store) → Touches s.operations (step c x s).operations
unfolding step
step-Touches c (begins dir draw q) s = elim (Result-cases (begin c dir draw q s)) [
  | inl ((r, s'), p) ↦ rw p (begin-Touches c dir draw q s s' r p)
  | inr (e, p) ↦ rw p (same_rows s.operations s.operations refl)
]
step-Touches c (queries dir draw action actor keys) s =
    elim (Result-cases (query c dir draw action actor keys s)) [
      | inl ((r, s'), p) ↦ rw p (query-Touches c dir draw action actor keys s s' r p)
      | inr (e, p) ↦ rw p (same_rows s.operations s.operations refl)
    ]
step-Touches c (recovers draw i) s = elim (Result-cases (mark_pending_recovery draw i s)) [
  | inl (s', p) ↦ rw p (recover-Touches draw i s s' p)
  | inr (e, p) ↦ rw p (same_rows s.operations s.operations refl)
]
step-Touches c (finishes lease t actor_id now i o) s =
    elim (Result-cases (finish lease t actor_id now i o s)) [
      | inl (s', p) ↦ rw p (finish-Touches lease t actor_id now i o s s' p)
      | inr (e, p) ↦ rw p (same_rows s.operations s.operations refl)
    ]

-- A row of the key, at a place; and a row at a place that is not being processed.
unfoldable pub HasKey : ℤ → ℕ → String → ℕ → List Operation → Type 0
HasKey actor action key i os =
    (o : Operation) × (nth i os ≡ some o) × (has_key actor action key o ≡ true)

unfoldable pub HasEnded : ℕ → List Operation → Type 0
HasEnded i os = (o : Operation) × (nth i os ≡ some o) × (same_state o.state processing ≡ false)

Touches-HasKey :
    (actor : ℤ) (action : ℕ) (key : String) (i : ℕ) (olds news : List Operation)
    → Touches olds news
    → HasKey actor action key i olds
    → HasKey actor action key i news
unfolding HasKey IsEnding
Touches-HasKey actor action key i olds news (same_rows _ _ e) h = rw e h
Touches-HasKey actor action key i olds news (changes _ _ j test change f e) (o, n, k) =
    elim (update-row i j test change olds o n) [
      | inl m ↦ rw e (o, m, k)
      | inr (m, _) ↦ rw e (change o, m, ground (arith, (f o).0 actor action key, k))
    ]
Touches-HasKey actor action key i olds news (creates _ _ new e) (o, n, k) =
    rw e (o, append-nth i olds new o n, k)

Touches-HasEnded :
    (i : ℕ) (olds news : List Operation) → Touches olds news → HasEnded i olds → HasEnded i news
unfolding HasEnded IsEnding
Touches-HasEnded i olds news (same_rows _ _ e) h = rw e h
Touches-HasEnded i olds news (changes _ _ j test change f e) (o, n, k) =
    elim (update-row i j test change olds o n) [
      | inl m ↦ rw e (o, m, k)
      | inr (m, _) ↦ rw e (change o, m, (f o).1)
    ]
Touches-HasEnded i olds news (creates _ _ new e) (o, n, k) = rw e (o, append-nth i olds new o n, k)

pub run-HasKey :
    (c : Crypto) (xs : List Step) (s : Store) (actor : ℤ) (action : ℕ) (key : String) (i : ℕ)
    → HasKey actor action key i s.operations
    → HasKey actor action key i (run c xs s).operations
unfolding run
run-HasKey c [] s actor action key i h = h
run-HasKey c (x ∷ xs) s actor action key i h =
    run-HasKey c xs (step c x s) actor action key i (
      Touches-HasKey actor action key i s.operations (step c x s).operations (step-Touches c x s) h)

pub run-HasEnded :
    (c : Crypto) (xs : List Step) (s : Store) (i : ℕ)
    → HasEnded i s.operations
    → HasEnded i (run c xs s).operations
unfolding run
run-HasEnded c [] s i h = h
run-HasEnded c (x ∷ xs) s i h =
    run-HasEnded c xs (step c x s) i
      (Touches-HasEnded i s.operations (step c x s).operations (step-Touches c x s) h)
