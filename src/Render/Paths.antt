-- ===== src/Render/Paths.antt =====
-- The operations of internal/service/public_render_job.go along the edges of the lifecycle.
use porsche.Prelude.{◌≡◌, none, List, [], ◌∷◌}
use porsche.Prelude.Int.{ℤ, pos}
use porsche.Render.{Job, queued}
use porsche.Render.Edges.{JobEdge, IsRow, IsCleared}

-- Any number of edges of the lifecycle, one after the other.
pub data JobPath (a : Job) : Job → Type 0 where
  rests : (b : Job) → b ≡ a → JobPath a b
  follows : (m b : Job) → JobPath a m → JobEdge m b → JobPath a b

-- Each row of a table and the row of the same id later.
abbrev pub AreAlong : List Job → List Job → Type 0
AreAlong [] [] = Unit {0}
AreAlong [] (b ∷ bs) = ⊥
AreAlong (a ∷ more) [] = ⊥
AreAlong (a ∷ more) (b ∷ bs) = JobPath a b × AreAlong more bs

-- The row of a job that is created: queued, free, not yet attempted.
pub record IsNewJob (guid price_id content_id now : ℤ) (job : Job) : Type 0 where
  pub of_guid : job.guid ≡ guid
  pub of_price : job.price_snapshot_id ≡ price_id
  pub of_content : job.content_release_id ≡ content_id
  pub unrecorded : IsCleared job
  pub is_queued : IsRow queued (pos 0) none none none none now job
