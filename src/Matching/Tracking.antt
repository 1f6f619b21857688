-- ===== src/Matching/Tracking.antt =====
-- The projection of one item under the events of a feed, whatever their order.
use trabalho_devops.Prelude.{
  ℕ, ◌≤◌, ◌==◌, ◌≡◌, ◌≢◌, refl, sym, ap, ◌∙◌, inl, inr, Option, none, some, arith, leb,
  if◌then◌else◌, Option-cases, Bool-cases,
}
use mathlib.Core.Path.{subst}
use trabalho_devops.Table.{find, insert}
use trabalho_devops.Table.Laws.{find-insert, key-find}
use trabalho_devops.Messaging.{Settings, EventEnvelope}
use trabalho_devops.Matching.Models.{ItemProjection, projection_key, ItemEventPayload, MatchDb}
use trabalho_devops.Matching.Service.{projection_of}
use trabalho_devops.Matching.Delivery.{typed, processed_key}
use trabalho_devops.Matching.Processing.{upserted, processed_row}
use trabalho_devops.Matching.Feed.{Feed}

-- The projection has the fields of the payload.
abbrev pub Shows : ItemEventPayload → ItemProjection → Type 0
Shows p q = q ≡ record {
  id = p.id;
  classification = p.classification;
  title = p.title;
  description = p.description;
  category = p.category;
  color = p.color;
  location_description = p.location_description;
  approximate_date = p.approximate_date;
  reporter_user_id = p.reporter_user_id;
  status = p.status;
  version = p.version;
  created_at = p.created_at;
  updated_at = p.updated_at;
  last_event_id = q.last_event_id;
  last_seen_at = q.last_seen_at;
}

-- The projection is of the payload's version, or of an older one.
abbrev pub NotAhead : ItemEventPayload → ItemProjection → Type 0
NotAhead latest q = (q.version ≤ latest.version) × (q.version ≡ latest.version → Shows latest q)

module _ {J : Type 0} (settings : Settings) (model_validate : J → Option ItemEventPayload) (k : ℕ)
    (latest : ItemEventPayload) (feed : Feed model_validate k latest) where
  pub record IsTracking (d : MatchDb) : Type 0 where
    pub not_ahead :
        (q : ItemProjection)
        → find projection_key k d.tables.projections ≡ some q
        → NotAhead latest q
    -- The projection is at least of the version of every event that has been processed.
    pub reached :
        (e : EventEnvelope J)
        → feed.IsSent e
        → e.aggregate_id ≡ k
        → find processed_key e.event_id d.processed ≢ none
        → (q : ItemProjection) × (find projection_key k d.tables.projections ≡ some q)
          × (e.aggregate_version ≤ q.version)

  module _ (e : EventEnvelope J) (sent : feed.IsSent e) (p : ItemEventPayload)
      (valid : model_validate e.payload ≡ some p) (same_id : p.id ≡ e.aggregate_id)
      (same_version : p.version ≡ e.aggregate_version) where
    abbrev event : EventEnvelope ItemEventPayload
    event = typed settings model_validate e p

    projection-NotAhead :
        (id : ℕ) → id ≡ p.id → e.aggregate_id ≡ k → NotAhead latest (projection_of event id)
    projection-NotAhead id own mine = (
      omega (arith, feed.not_ahead e sent mine, same_version),
      λ v.
          let same : p ≡ latest =
            ground (arith, valid, feed.current e sent mine (sym same_version ∙ v)) in
          subst (λ (x : ItemEventPayload). Shows x (projection_of event id)) same
            (ap (projection_of event) own),
    )

    upserted-NotAhead :
        (o : Option ItemProjection)
        → ((q : ItemProjection) → o ≡ some q → (q.id ≡ k) × NotAhead latest q)
        → e.aggregate_id ≡ k
        → NotAhead latest (upserted event o)
    upserted-NotAhead none old mine = projection-NotAhead p.id refl mine
    upserted-NotAhead (some q) old mine = elim (Bool-cases (leb e.aggregate_version q.version)) [
      | inl stale ↦ rw stale ((old q refl).1)
      | inr newer ↦
          rw newer (projection-NotAhead q.id ((old q refl).0 ∙ sym mine ∙ sym same_id) mine)
    ]

    upserted_reaches :
        (o : Option ItemProjection) → e.aggregate_version ≤ (upserted event o).version
    upserted_reaches none = omega (arith, same_version)
    upserted_reaches (some q) = ground (arith, same_version)

    upserted_grows : (q : ItemProjection) → q.version ≤ (upserted event (some q)).version
    upserted_grows q = ground (arith, same_version)

    -- One more event of the feed, processed.
    module _ (d d' : MatchDb)
        (rows : (j : ℕ)
          → find projection_key j d'.tables.projections ≡ (
              if e.aggregate_id == j
              then some (upserted event (find projection_key e.aggregate_id d.tables.projections))
              else find projection_key j d.tables.projections))
        (registered : d'.processed ≡ insert (processed_row event) d.processed)
        (t : IsTracking d) where
      abbrev old : Option ItemProjection
      old = find projection_key e.aggregate_id d.tables.projections

      there :
          e.aggregate_id ≡ k
          → find projection_key k d'.tables.projections ≡ some (upserted event old)
      there mine = ground (arith, rows k, mine)

      old_rows :
          e.aggregate_id ≡ k → (q : ItemProjection) → old ≡ some q → (q.id ≡ k) × NotAhead latest q
      old_rows mine q here =
          let here' = subst (λ j. find projection_key j d.tables.projections ≡ some q) mine here in
          (key-find projection_key k d.tables.projections q here', t.not_ahead q here')

      -- The projection that there was is still there, or a later one.
      grown :
          (q : ItemProjection)
          → find projection_key k d.tables.projections ≡ some q
          → (q' : ItemProjection) × (find projection_key k d'.tables.projections ≡ some q')
            × (q.version ≤ q'.version)
      grown q here = elim (Bool-cases (e.aggregate_id == k)) [
        | inl same ↦
            let mine : e.aggregate_id ≡ k = ground arith in
            let was : old ≡ some q =
              ap (λ j. find projection_key j d.tables.projections) mine ∙ here in
            (
              upserted event (some q),
              there mine ∙ ap (λ o. some (upserted event o)) was,
              upserted_grows q,
            )
        | inr other ↦ (q, ground (arith, rows k, here), omega arith)
      ]

      pub processed-IsTracking : IsTracking d'
      processed-IsTracking = record {
        not_ahead = λ q h. elim (Bool-cases (e.aggregate_id == k)) [
          | inl same ↦
              let mine : e.aggregate_id ≡ k = ground arith in
              let one : upserted event old ≡ q = ground (arith, there mine, h) in
              subst (NotAhead latest) one (upserted-NotAhead old (old_rows mine) mine)
          | inr other ↦ t.not_ahead q (ground (arith, rows k, h))
        ];
        reached = λ e' sent' about known.
            elim (Option-cases (find processed_key e'.event_id d.processed)) [
              | inr (row, before) ↦
                  let (q, here, le) = t.reached e' sent' about (λ absent. cc) in
                  let (q', here', le') = grown q here in (q', here', omega (arith, le, le'))
              | inl absent ↦
                  let (aggregate, version) = feed.unique e e' sent sent' (
                    ground (
                      arith,
                      known,
                      registered,
                      find-insert processed_key (processed_row event) e'.event_id d.processed,
                      absent,
                    )) in
                  (
                    upserted event old,
                    there (aggregate ∙ about),
                    omega (arith, version, upserted_reaches old),
                  )
            ];
      }
