-- ===== src/Matching/Projections.antt =====
-- The projections of items under the item events, which may come late or out of order.
use trabalho_devops.Prelude.{
  ℕ, ◌≤◌, ◌<◌, ◌==◌, ◌≡◌, refl, Option, none, some, List, arith, leb, Option-cases, Bool-cases, inl,
  inr,
}
use mathlib.Core.Path.{subst}
use trabalho_devops.Store.{Session}
use trabalho_devops.Table.{find, save, insert}
use trabalho_devops.Table.Laws.{find-save, find-insert, key-find}
use trabalho_devops.Messaging.{EventEnvelope}
use trabalho_devops.Matching.Models.{ItemProjection, projection_key, ItemEventPayload, MatchDb}
use trabalho_devops.Matching.Service.{projection_of, upsert_found, upsert_item_projection}

-- What has become of the projection `p` of the item `k`.
abbrev pub NotBack : ℕ → ItemProjection → List ItemProjection → Type 0
NotBack k p rows =
    (p' : ItemProjection) × (find projection_key k rows ≡ some p')
    × (p.version ≤ p'.version)
    × (p'.version ≡ p.version → p' ≡ p)

module _ (envelope : EventEnvelope ItemEventPayload) (s : Session MatchDb)
    (same : envelope.aggregate_version ≡ envelope.payload.version) (k : ℕ) (p : ItemProjection)
    (here : find projection_key k s.working.tables.projections ≡ some p) where
  kept : NotBack k p s.working.tables.projections
  kept = (p, here, omega arith, λ e. refl)

  inserted : (q : ItemProjection) → NotBack k p (insert q s.working.tables.projections)
  inserted q = (
    p,
    ground (arith, here, find-insert projection_key q k s.working.tables.projections),
    omega arith,
    λ e. refl,
  )

  -- A newer one takes the place of the one with its id.
  replaced :
      (q : ItemProjection)
      → find projection_key envelope.aggregate_id s.working.tables.projections ≡ some q
      → q.version < envelope.aggregate_version
      → NotBack k p (save projection_key (projection_of envelope q.id) s.working.tables.projections)
  replaced q found newer = elim (Bool-cases (q.id == k)) [
    | inl mine ↦
        let one : q ≡ p = ground (
          arith,
          here,
          found,
          key-find projection_key envelope.aggregate_id s.working.tables.projections q found,
        ) in
        let older : p.version < envelope.aggregate_version =
          subst (λ (x : ItemProjection). x.version < envelope.aggregate_version) one newer in
        (
          projection_of envelope q.id,
          ground (
            arith,
            here,
            find-save projection_key (projection_of envelope q.id) k s.working.tables.projections,
          ),
          omega (arith, same, older),
          λ e. absurd (omega (arith, same, older, e)),
        )
    | inr other ↦ (
      p,
      ground (
        arith,
        here,
        find-save projection_key (projection_of envelope q.id) k s.working.tables.projections,
      ),
      omega arith,
      λ e. refl,
    )
  ]

  upsert_found_monotone :
      (o : Option ItemProjection)
      → find projection_key envelope.aggregate_id s.working.tables.projections ≡ o
      → NotBack k p (upsert_found envelope o s).1.working.tables.projections
  unfolding upsert_found
  upsert_found_monotone none absent =
      elim (Option-cases (find projection_key envelope.payload.id s.working.tables.projections)) [
        | inl free ↦ simp free (inserted (projection_of envelope envelope.payload.id))
        | inr (q, taken) ↦ simp taken kept
      ]
  upsert_found_monotone (some q) found =
      elim (Bool-cases (leb envelope.aggregate_version q.version)) [
        | inl stale ↦ simp stale kept
        | inr newer ↦ simp newer (replaced q found (ground arith))
      ]

  -- No projection goes back: of an item that has one before an event, the version afterwards is at
  -- least what it was, and the projection is the same if the version is. It is taken that the event
  -- carries one version in its envelope and its payload, as those of item-service do.
  pub upsert_item_projection_monotone :
      NotBack k p (upsert_item_projection envelope s).1.working.tables.projections
  unfolding upsert_item_projection
  upsert_item_projection_monotone =
      upsert_found_monotone (find projection_key envelope.aggregate_id s.working.tables.projections)
        refl
