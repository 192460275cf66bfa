-- ===== src/Operation/Once.antt =====
-- An operation of internal/service/action_operation.go is begun once and ends once.
use porsche.Prelude.{
  ℕ, ◌≡◌, ◌≢◌, subst, inl, inr, String, Bool, true, Option, none, some, Option-cases, Bool-cases,
  Result-cases, List, [], ◌∷◌, length, ok, arith, if◌then◌else◌, bind-ok, ◌&&◌, ==_iff,
}
use porsche.Prelude.Int.{ℤ, eq_ℤ, leb_ℤ, eq_ℤ_iff}
use porsche.Prelude.Table.{
  find_row, update, rows_affected, rows_affected-nth, update-nth, find_row-none, nth-append,
}
use porsche.Intent.Actions.{Action, Descriptor, number, resolve_active}
use porsche.Operation.{
  Operation, expired, same_state, can_transition, Actor, User, Session, View, is_positive,
}
use porsche.Operation.Access.{
  Directory, lock_actor, lookup_user, sole_session, matches, intent_target,
}
use porsche.Operation.Begin.{
  Store, Crypto, Request, Draw, ready, answer_existing, begin_existing, check_existing,
  expire_operation,
}
use porsche.Operation.Requests.{
  begin, prepare, Prepared, begin_found, has_prepared_key, valid_descriptor, ticket_text, encoded,
  Terminal, finish, consume, may_end, ended,
}
use porsche.Operation.History.{Step, run}
use porsche.Operation.Touches.{
  HasKey, HasEnded, run-HasKey, run-HasEnded, IsCreated, new-IsCreated, consume-operations,
  ended-state,
}

answer-ready :
    (s s' : Store) (i j : ℕ) (o : Operation) (actor_id : ℤ) (d : Descriptor) (now : ℤ) (v : View)
    → answer_existing s i o actor_id d now ≢ ok (ready j v, s')
answer-ready s s' i j o actor_id d now v h = elim (Bool-cases (same_state o.state expired)) [
  | inl p ↦ ground (arith, p, h)
  | inr p ↦ elim (Bool-cases (leb_ℤ o.query_expires_at now && can_transition o.state expired)) [
    | inr q ↦ ground (arith, p, q, h)
    | inl q ↦
        elim (Result-cases
          (expire_operation s i o (if is_positive actor_id then some actor_id else none) now)) [
            | inr (e, t) ↦ ground (arith, p, q, t, h)
            | inl (m, t) ↦ ground (arith, p, q, t, h)
          ]
  ]
]

begin-ready :
    (c : Crypto) (dir : Directory) (draw : Draw) (q : Request) (s s' : Store) (i : ℕ) (v : View)
    → begin c dir draw q s ≡ ok (ready i v, s')
    → (p : Prepared) × (prepare c dir draw q ≡ ok p)
      × (find_row (has_prepared_key p) s.operations ≡ none)
      × IsCreated s p.actor.id (number p.descriptor.action) p.key (ready i v) s'
unfolding begin
begin-ready c dir draw q s s' i v h =
    let (p, made, h₁) = bind-ok (prepare c dir draw q) _ h in
    elim (Option-cases (find_row (has_prepared_key p) s.operations)) [
      | inl f ↦ (
        p,
        made,
        f,
        new-IsCreated dir p.descriptor p.actor p.session draw s s' p.key p.ticket p.request p.target
            (ready i v) (subst (λ x. begin_found dir draw s p x ≡ ok (ready i v, s')) f h₁),
      )
      | inr ((j, o), f) ↦
          let h₂ : begin_existing dir p.descriptor p.actor p.session draw s p.ticket p.request
                p.target (j, o)
              ≡ ok (ready i v, s') =
            subst (λ x. begin_found dir draw s p x ≡ ok (ready i v, s')) f h₁ in
          let (_, _, h₃) =
            bind-ok
              (check_existing dir p.descriptor p.actor p.session draw s p.ticket p.request p.target
                o)
              _ h₂ in
          absurd (answer-ready s s' j i o p.actor.id p.descriptor draw.final_now v h₃)
    ]

lookup_user-test :
    (test : User → Bool) (us : List User) (u : User) → lookup_user test us ≡ some u → test u ≡ true
lookup_user-test test [] u h = cc
lookup_user-test test (x ∷ us) u h = elim (Bool-cases (test x)) [
  | inl p ↦ ground (arith, p, h)
  | inr p ↦ lookup_user-test test us u (ground (arith, p, h))
]

lock_actor-id :
    (dir : Directory) (a : Actor) (now : ℤ) (u : User) (session : Session)
    → lock_actor dir a now ≡ ok (u, session)
    → u.id ≡ a.user_id
unfolding lock_actor
lock_actor-id dir a now u session h =
    elim (Option-cases (lookup_user (λ x. eq_ℤ x.id a.user_id) dir.users)) [
      | inl p ↦ ground (arith, p, h)
      | inr (x, p) ↦
          let e : x ≡ u =
            elim (Result-cases (sole_session a (matches dir.sessions x.id a.session_sid now))) [
              | inl (y, q) ↦ ground (arith, p, q, h)
              | inr (y, q) ↦ ground (arith, p, q, h)
            ] in
          let t = lookup_user-test (λ x. eq_ℤ x.id a.user_id) dir.users x p in
          ground (arith, e, (eq_ℤ_iff x.id a.user_id).0 t)
    ]

-- The key by which a request looks for its operation.
IsKeyOf : Crypto → Request → Prepared → Type 0
IsKeyOf c q p =
    (p.actor.id ≡ q.actor.user_id)
    × (number p.descriptor.action ≡ number q.action)
    × (c.idempotency_digest q.idempotency_key_values ≡ some p.key)

descriptor-number :
    (action : Action) (o : Option Descriptor) (d : Descriptor)
    → valid_descriptor action o ≡ ok d
    → number d.action ≡ number action
descriptor-number action none d h = cc
descriptor-number action (some e) d h =
    ground (arith, h, (==_iff (number e.action) (number action)).0)

prepare-IsKeyOf :
    (c : Crypto) (dir : Directory) (draw : Draw) (q : Request) (p : Prepared)
    → prepare c dir draw q ≡ ok p
    → IsKeyOf c q p
unfolding prepare IsKeyOf
prepare-IsKeyOf c dir draw q p h =
    elim (Result-cases (valid_descriptor q.action (resolve_active q.action))) [
      | inr (e, a) ↦ ground (arith, a, h)
      | inl (d, a) ↦ elim (Option-cases (c.idempotency_digest q.idempotency_key_values)) [
        | inl b ↦ ground (arith, a, b, h)
        | inr (key, b) ↦
            elim (Result-cases (ticket_text d (c.ticket_digest q.ticket_values) q.ticket_values)) [
              | inr (e, t) ↦ ground (arith, a, b, t, h)
              | inl (ticket, t) ↦ elim (Result-cases (encoded c q.action q.intent)) [
                | inr (e, n) ↦ ground (arith, a, b, t, n, h)
                | inl (bytes, n) ↦ elim (Result-cases (intent_target d q.intent)) [
                  | inr (e, g) ↦ ground (arith, a, b, t, n, g, h)
                  | inl (target, g) ↦ elim (Result-cases (lock_actor dir q.actor draw.now)) [
                    | inr (e, l) ↦ ground (arith, a, b, t, n, g, l, h)
                    | inl ((u, session), l) ↦
                        let same : (p.actor ≡ u) × (p.descriptor ≡ d) × (p.key ≡ key) =
                          ground (arith, a, b, t, n, g, l, h) in
                        (
                          ground (arith, same, lock_actor-id dir q.actor draw.now u session l),
                          ground (
                            arith,
                            same,
                            descriptor-number q.action (resolve_active q.action) d a,
                          ),
                          ground (arith, same, b),
                        )
                  ]
                ]
              ]
            ]
      ]
    ]

-- After a call of Begin that made an operation ready for execution, whatever transactions follow,
-- by whomever, no call of Begin with the same actor, action and idempotency key makes one ready.
pub ready_once :
    (c : Crypto) (dir dir' : Directory) (draw draw' : Draw) (q q' : Request) (xs : List Step)
    (s s₁ s₂ : Store) (i j : ℕ) (v w : View)
    → begin c dir draw q s ≡ ok (ready i v, s₁)
    → q'.actor.user_id ≡ q.actor.user_id
    → q'.action ≡ q.action
    → c.idempotency_digest q'.idempotency_key_values ≡ c.idempotency_digest q.idempotency_key_values
    → begin c dir' draw' q' (run c xs s₁) ≢ ok (ready j w, s₂)
unfolding IsKeyOf IsCreated HasKey
ready_once c dir dir' draw draw' q q' xs s s₁ s₂ i j v w h a b k h' =
    let (p, made, _, (new, e, t)) = begin-ready c dir draw q s s₁ i v h in
    let (p', made', f', _) = begin-ready c dir' draw' q' (run c xs s₁) s₂ j w h' in
    let key = prepare-IsKeyOf c dir draw q p made in
    let key' = prepare-IsKeyOf c dir' draw' q' p' made' in
    let there : HasKey p.actor.id (number p.descriptor.action) p.key (length s.operations)
        s₁.operations =
      rw e (new, nth-append s.operations new, t) in
    let (o, n, m) =
      run-HasKey c xs s₁ p.actor.id (number p.descriptor.action) p.key (length s.operations)
        there in
    let none_found =
      find_row-none (has_prepared_key p') (run c xs s₁).operations (length s.operations) o f' n in
    ground (arith, key, key', a, b, k, none_found, m)

-- After an operation has ended, whatever transactions follow, it does not end again.
pub finish_once :
    (c : Crypto) (lease lease' : String) (t t' : Terminal) (actor_id actor_id' now now' : ℤ) (i : ℕ)
    (o o' : Operation) (xs : List Step) (s s₁ s₂ : Store)
    → finish lease t actor_id now i o s ≡ ok s₁
    → finish lease' t' actor_id' now' i o' (run c xs s₁) ≢ ok s₂
unfolding finish HasEnded
finish_once c lease lease' t t' actor_id actor_id' now now' i o o' xs s s₁ s₂ h h' =
    let (m, p, h₁) = bind-ok (consume s o.verification_id now) _ h in
    let r : rows_affected i (may_end lease o) m.operations ≡ 1 = ground (arith, h₁) in
    let (row, n, u) = rows_affected-nth i (may_end lease o) m.operations r in
    let e : s₁.operations ≡ update i (may_end lease o) (ended t actor_id now) m.operations =
      ground (arith, h₁) in
    let there : HasEnded i s₁.operations = rw e (
      ended t actor_id now row,
      update-nth i (may_end lease o) (ended t actor_id now) m.operations row n u,
      ended-state t actor_id now row,
    ) in
    let (last, l, k) = run-HasEnded c xs s₁ i there in
    let (m', p', h₂) = bind-ok (consume (run c xs s₁) o'.verification_id now') _ h' in
    let r' : rows_affected i (may_end lease' o') m'.operations ≡ 1 = ground (arith, h₂) in
    let (row', n', u') = rows_affected-nth i (may_end lease' o') m'.operations r' in
    let same = consume-operations (run c xs s₁) m' o'.verification_id now' p' in
    ground (arith, same, l, k, n', u')
