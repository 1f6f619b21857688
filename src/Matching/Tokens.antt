-- ===== src/Matching/Tokens.antt =====
-- `normalize_value` and `tokenize` of app/services/matching_service.py, on texts of Latin-1 code
-- points: of Python's `lower` and `strip`, the part that is about these. A set of tokens is the list
-- of its elements.
use trabalho_devops.Prelude.{
  ℕ, ◌==◌, Bool, true, false, ◌&&◌, ◌||◌, not, List, [], ◌∷◌, leb, ltb, if◌then◌else◌, select,
  length, between, lower, strip, Text, text_eq,
}

unfoldable pub normalize_value : Text → Text
normalize_value value = lower (strip value)

-- `[a-zA-ZÀ-ÿ0-9]`
abbrev pub is_word_char : ℕ → Bool
is_word_char c = between 97 122 c || between 65 90 c || between 192 255 c || between 48 57 c

abbrev add_word : Text → List Text → List Text
add_word [] words = words
add_word (c ∷ cs) words = (c ∷ cs) ∷ words

-- The word that the text begins with, maybe empty, and the later ones.
abbrev pub scan : Text → Text × List Text
scan [] = ([], [])
scan (c ∷ cs) =
    let (word, words) = scan cs in
    if is_word_char c then (c ∷ word, words) else ([], add_word word words)

-- `re.findall(r"[a-zA-ZÀ-ÿ0-9]+", value)`
abbrev pub find_words : Text → List Text
find_words value = let (word, words) = scan value in add_word word words

abbrev pub text_elem : Text → List Text → Bool
text_elem t [] = false
text_elem t (u ∷ us) = text_eq t u || text_elem t us

-- "a", "o", "e", "de", "da", "do", "na", "no", "em", "um", "uma", "com", "para"
abbrev pub stopwords : List Text
stopwords =
    (97 ∷ [])
    ∷ (111 ∷ [])
    ∷ (101 ∷ [])
    ∷ (100 ∷ 101 ∷ [])
    ∷ (100 ∷ 97 ∷ [])
    ∷ (100 ∷ 111 ∷ [])
    ∷ (110 ∷ 97 ∷ [])
    ∷ (110 ∷ 111 ∷ [])
    ∷ (101 ∷ 109 ∷ [])
    ∷ (117 ∷ 109 ∷ [])
    ∷ (117 ∷ 109 ∷ 97 ∷ [])
    ∷ (99 ∷ 111 ∷ 109 ∷ [])
    ∷ (112 ∷ 97 ∷ 114 ∷ 97 ∷ [])
    ∷ []

unfoldable pub tokenize : Text → List Text
tokenize value =
    select (λ token. leb 3 (length token) && not (text_elem token stopwords))
      (find_words (lower value))

-- `<` of two texts
abbrev pub text_less : Text → Text → Bool
text_less [] [] = false
text_less [] (d ∷ ds) = true
text_less (c ∷ cs) [] = false
text_less (c ∷ cs) (d ∷ ds) = ltb c d || (c == d && text_less cs ds)

abbrev pub insert_token : Text → List Text → List Text
insert_token t [] = t ∷ []
insert_token t (u ∷ us) =
    let rest = insert_token t us in
    if text_eq t u then u ∷ us else if text_less t u then t ∷ u ∷ us else u ∷ rest

abbrev pub sort_tokens : List Text → List Text
sort_tokens [] = []
sort_tokens (t ∷ ts) = insert_token t (sort_tokens ts)

-- `sorted(tokens & others)`
unfoldable pub overlap : List Text → List Text → List Text
overlap tokens others = sort_tokens (select (λ t. text_elem t others) tokens)
