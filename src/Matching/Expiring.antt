-- ===== src/Matching/Expiring.antt =====
-- `expire_invalid_matches_for_item`: afterwards no suggestion of the item waits that is not of a
-- candidate pair.
use trabalho_devops.Prelude.{
  ℕ, ◌==◌, ◌||◌, ◌&&◌, ◌≡◌, refl, ◌∙◌, ◌⊎◌, inl, inr, Bool, true, Option, none, some, List, [], ◌∷◌,
  arith, if◌then◌else◌, All, elem, select,
}
use trabalho_devops.Exec.{ok}
use trabalho_devops.Store.{Session}
use trabalho_devops.Table.{find, dict_get, order_by, IsUnique}
use trabalho_devops.Table.Laws.{
  key-find, find-select, select-IsUnique, order_by-IsUnique, dict_get-find,
}
use trabalho_devops.Matching.Models.{
  ItemProjection, projection_key, MatchSuggestion, match_key, is_suggested, MatchDb,
}
use trabalho_devops.Matching.Service.{expire_invalid_matches_for_item, related_ids}
use trabalho_devops.Matching.Fairness.{IsKeyed, Waiting, IsFairIn, AllFair}
use trabalho_devops.Matching.Expiry.{Kept, Loaded, expire_each-AllFair}

abbrev pub Involves : ℕ → MatchSuggestion → Type 0
Involves item_id m = (m.lost_item_id == item_id || m.found_item_id == item_id) ≡ true

module _ (ids : List ℕ) (projections : List ItemProjection)
    (u : IsUnique projection_key projections) where
  abbrev read_rows : List ItemProjection
  read_rows = select (λ (p : ItemProjection). elem p.id ids) projections

  dict_get-read_rows :
      (k : ℕ)
      → elem k ids ≡ true
      → dict_get projection_key k read_rows ≡ find projection_key k projections
  dict_get-read_rows k listed =
      dict_get-find projection_key k read_rows
        (select-IsUnique projection_key (λ (p : ItemProjection). elem p.id ids) projections u)
      ∙ find-select projection_key (λ (p : ItemProjection). elem p.id ids) k projections u
      ∙ all_listed (find projection_key k projections) (key-find projection_key k projections)
    where
      all_listed :
          (o : Option ItemProjection)
          → ((a : ItemProjection) → o ≡ some a → a.id ≡ k)
          → ◌≡◌ {A = Option ItemProjection}
              (elim o [ none ↦ none | some a ↦ if elem a.id ids then some a else none ])
              o
      all_listed none h = refl
      all_listed (some a) h = ground (arith, h a refl, listed)

  All-Loaded :
      (item_id : ℕ) (ms : List MatchSuggestion)
      → ((k : ℕ) → elem k (related_ids item_id ms) ≡ true → elem k ids ≡ true)
      → All (Loaded read_rows projections) ms
  All-Loaded item_id [] h = tt
  All-Loaded item_id (m ∷ ms) h = (
    (
      dict_get-read_rows m.lost_item_id (h m.lost_item_id (ground arith)),
      dict_get-read_rows m.found_item_id (h m.found_item_id (ground arith)),
    ),
    All-Loaded item_id ms (λ k e. h k (ground arith)),
  )

-- If the suggestions that wait are fair, or the item's, then all are fair afterwards.
pub expire_invalid_matches_for_item-AllFair :
    (item_id : ℕ) (s : Session MatchDb)
    → IsKeyed s.env s.working.tables
    → Waiting (λ m. IsFairIn s.working.tables m ⊎ Involves item_id m) s.working.tables
    → let (r, s') = expire_invalid_matches_for_item item_id s in
      (r ≡ ok tt) × Kept s s' × AllFair s'.working.tables
unfolding expire_invalid_matches_for_item
expire_invalid_matches_for_item-AllFair item_id s k fair =
    expire_each-AllFair (read_rows (related_ids item_id waiting) rows k.projections) waiting s k
      (All-Loaded (related_ids item_id waiting) rows k.projections item_id waiting (λ j e. e))
      (λ j m here waits. elim (fair j m here waits) [
        | inl good ↦ inl good
        | inr mine ↦ inr (listed j m here waits mine)
      ])
  where
    rows : List ItemProjection
    rows = s.working.tables.projections

    of_item : MatchSuggestion → Bool
    of_item m = is_suggested m.status && (m.lost_item_id == item_id || m.found_item_id == item_id)

    waiting : List MatchSuggestion
    waiting =
        order_by (λ (m : MatchSuggestion). m.created_at)
          (select of_item s.working.tables.suggestions)

    listed :
        (j : ℕ) (m : MatchSuggestion)
        → find match_key j s.working.tables.suggestions ≡ some m
        → is_suggested m.status ≡ true
        → Involves item_id m
        → find match_key m.id waiting ≡ some m
    listed j m here waits mine =
        let keyed = key-find match_key j s.working.tables.suggestions m here in
        (order_by-IsUnique match_key (λ (x : MatchSuggestion). x.created_at)
            (select of_item s.working.tables.suggestions)
            (select-IsUnique match_key of_item s.working.tables.suggestions k.suggestions)).1
          m.id
        ∙ find-select match_key of_item m.id s.working.tables.suggestions k.suggestions
        ∙ ground (arith, keyed, here)
