-- ===== src/Recovery/Exclusion.antt =====
-- What the unique indexes of `recovery_cases` are for.
use trabalho_devops.Prelude.{◌≡◌, true, false, ◌⊎◌, inl, inr, some, List, [], ◌∷◌, arith}
use trabalho_devops.Table.{find}
use trabalho_devops.Recovery.Models.{RecoveryCase, case_key, is_active, conflicts, violates_indexes}
use trabalho_devops.Recovery.Indexes.{clear, stored-clear}

clear-find :
    (a c : RecoveryCase) (cs : List RecoveryCase)
    → clear c cs ≡ true
    → find case_key a.id cs ≡ some a
    → conflicts a c ≡ true
    → a.id ≡ c.id
clear-find a c [] h e x = absurd (ground arith)
clear-find a c (y ∷ ys) h e x = ground (arith, clear-find a c ys)

-- What the indexes are for: two stored cases of one match, or two active ones of one found item, are
-- the same case.
abbrev pub IsExclusive : List RecoveryCase → Type 0
IsExclusive cs =
    (a b : RecoveryCase)
    → find case_key a.id cs ≡ some a
    → find case_key b.id cs ≡ some b
    → (a.match_id ≡ b.match_id)
      ⊎ ((is_active a.status ≡ true)
          × (is_active b.status ≡ true)
          × (a.found_item_id ≡ b.found_item_id))
    → a ≡ b

conflicts-same :
    (a b : RecoveryCase)
    → (a.match_id ≡ b.match_id)
      ⊎ ((is_active a.status ≡ true)
          × (is_active b.status ≡ true)
          × (a.found_item_id ≡ b.found_item_id))
    → conflicts a b ≡ true
conflicts-same a b (inl m) = ground arith
conflicts-same a b (inr (x, y, f)) = ground arith

pub IsExclusive-violates_indexes :
    (cs : List RecoveryCase) → violates_indexes cs ≡ false → IsExclusive cs
IsExclusive-violates_indexes cs v a b here there same =
    let i : a.id ≡ b.id =
      clear-find a b cs (stored-clear b cs v there) here (conflicts-same a b same) in
    ground (arith, here, there, i)
