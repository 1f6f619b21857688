-- ===== src/Item/Refinement.antt =====
-- item-service refines the board of statuses.
use trabalho_devops.Prelude.{List, [], ◌∷◌}
use trabalho_devops.Item.Models.{in_recovery, recovered}
use trabalho_devops.Item.Rules.{by_user, by_open, by_cancel, by_complete}
use trabalho_devops.Item.Requests.{
  Request, create, update, update_status, open_case, cancel_case, complete_case,
}
use trabalho_devops.Item.Board.{Board, Same, Adds, Moves}

-- What each request does to the board.
abbrev pub Performs : Request → Board → Board → Type 0
Performs (create payload) = Adds
Performs (update id payload) = Same
Performs (update_status id payload) = Moves by_user payload.status (id ∷ [])
Performs (open_case payload) = Moves by_open in_recovery payload.item_ids
Performs (cancel_case payload) = Moves by_cancel payload.target_status payload.item_ids
Performs (complete_case payload) = Moves by_complete recovered payload.item_ids

-- The requests in sequence.
abbrev pub Run : List Request → Board → Board → Type 0
Run [] b b' = Same b b'
Run (r ∷ rs) b b'' = (b' : Board) × Performs r b b' × Run rs b' b''
