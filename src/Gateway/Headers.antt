-- ===== src/Gateway/Headers.antt =====
-- The headers that `_build_downstream_headers` of app/services/proxy_service.py hands on.
use trabalho_devops.Prelude.{
  ◌≡◌, ◌≢◌, refl, sym, ap, ◌∙◌, inl, inr, Text, text_eq, text_eq_lem, codes, lower, Bool, true,
  false, Bool-cases, Option, none, some, [], ◌∷◌, get_or, if◌then◌else◌, arith,
}
use mathlib.Core.Path.{subst}
use trabalho_devops.Gateway.Models.{Headers, Request}
use trabalho_devops.Gateway.Security.{header}
use trabalho_devops.Gateway.Proxy.{
  name_in, hop_by_hop_headers, forwarded_headers, set_header, is_forwarded, copy_headers,
  build_downstream_headers,
}

-- The last value of a name, if it has one.
abbrev pub last_header : Text → Headers → Option Text
last_header name [] = none
last_header name ((n, v) ∷ hs) =
    if text_eq n name then some (get_or (last_header name hs) v) else last_header name hs

abbrev or_else : Option Text → Option Text → Option Text
or_else none o = o
or_else (some v) o = some v

abbrev select_header : Bool → Text → Option Text → Option Text
select_header true value o = some value
select_header false value o = o

text_eq_left : (n key name : Text) → text_eq n key ≡ true → text_eq key name ≡ text_eq n name
text_eq_left n key name h = ap (λ x. text_eq x name) (sym (text_eq_lem n key h))

text_eq_right : (n key name : Text) → text_eq key name ≡ true → text_eq n key ≡ text_eq n name
text_eq_right n key name h = ap (text_eq n) (text_eq_lem key name h)

header-set_header :
    (name key value : Text) (hs : Headers)
    → header name (set_header key value hs)
      ≡ select_header (text_eq key name) value (header name hs)
header-set_header name key value [] = ground arith
header-set_header name key value ((n, v) ∷ hs) =
    ground (
      arith,
      header-set_header name key value hs,
      text_eq_left n key name,
      text_eq_right n key name,
    )

name_in-once : (P : Text → Type 0) (x n : Text) → P n → text_eq x n ≡ true → P x
name_in-once P x n p h = subst P (sym (text_eq_lem x n h)) p

-- None of the three names is one of the hop-by-hop headers.
is_apart : (x : Text) → name_in x forwarded_headers ≡ true → name_in x hop_by_hop_headers ≡ false
unfolding hop_by_hop_headers
is_apart x h =
    let apart : Text → Type 0 = λ y. name_in y hop_by_hop_headers ≡ false in
    elim (Bool-cases (text_eq x (codes "accept"))) [
      | inl a ↦ name_in-once apart x _ refl a
      | inr a ↦ elim (Bool-cases (text_eq x (codes "authorization"))) [
        | inl b ↦ name_in-once apart x _ refl b
        | inr b ↦ name_in-once apart x (codes "content-type") refl (ground arith)
      ]
    ]

pub is_forwarded_lem : (name : Text) → is_forwarded name ≡ name_in (lower name) forwarded_headers
unfolding is_forwarded
is_forwarded_lem name = elim (Bool-cases (name_in (lower name) forwarded_headers)) [
  | inl named ↦ rw (is_apart (lower name) named) refl
  | inr other ↦ elim (Bool-cases (name_in (lower name) hop_by_hop_headers)) [
    | inl hop ↦ rw hop (sym other)
    | inr free ↦ rw free refl
  ]
]

or_else-select :
    (c : Bool) (o p : Option Text) (v : Text)
    → or_else o (select_header c v p) ≡ or_else (if c then some (get_or o v) else o) p
or_else-select true none p v = refl
or_else-select true (some w) p v = refl
or_else-select false o p v = refl

is_forwarded_eq : (n name : Text) → text_eq n name ≡ true → is_forwarded n ≡ is_forwarded name
is_forwarded_eq n name h = ap is_forwarded (text_eq_lem n name h)

abbrev chosen : Bool → Option Text → Option Text → Option Text
chosen true last before = or_else last before
chosen false last before = before

-- Of two headers of which one is handed on, the names differ.
apart : (n name : Text) → is_forwarded n ≢ is_forwarded name → text_eq n name ≡ false
apart n name differ = elim (Bool-cases (text_eq n name)) [
  | inl same ↦ absurd (differ (is_forwarded_eq n name same))
  | inr other ↦ other
]

-- One turn of the loop, before the `rest` of it.
copy_one :
    (name : Text) (acc : Headers) (n v : Text) (hs : Headers) (b c : Bool)
    → ((before : Headers)
        → header name (copy_headers before hs)
          ≡ chosen b (last_header name hs) (header name before))
    → is_forwarded name ≡ b
    → is_forwarded n ≡ c
    → header name (copy_headers (if c then set_header n v acc else acc) hs)
      ≡ chosen b (last_header name ((n, v) ∷ hs)) (header name acc)
copy_one name acc n v hs true true rest h k =
    rest (set_header n v acc)
    ∙ ap (or_else (last_header name hs)) (header-set_header name n v acc)
    ∙ or_else-select (text_eq n name) (last_header name hs) (header name acc) v
copy_one name acc n v hs false true rest h k =
    rest (set_header n v acc)
    ∙ header-set_header name n v acc
    ∙ rw (apart n name (λ e. cc (e, h, k))) refl
copy_one name acc n v hs true false rest h k = rw (apart n name (λ e. cc (e, h, k))) (rest acc)
copy_one name acc n v hs false false rest h k = rest acc

header-copy_headers :
    (name : Text) (hs : Headers) (b : Bool) (acc : Headers)
    → is_forwarded name ≡ b
    → header name (copy_headers acc hs) ≡ chosen b (last_header name hs) (header name acc)
unfolding copy_headers
header-copy_headers name [] true acc h = refl
header-copy_headers name [] false acc h = refl
header-copy_headers name ((n, v) ∷ hs) b acc h =
    copy_one name acc n v hs b (is_forwarded n) (λ before. header-copy_headers name hs b before h) h
      refl

-- The lookup after the loop and the assignment that follows it.
chosen-none : (b : Bool) (last : Option Text) → chosen b last none ≡ (if b then last else none)
chosen-none true none = refl
chosen-none true (some v) = refl
chosen-none false last = refl

set_last :
    (c : Bool) (v : Text) (o p : Option Text)
    → o ≡ p
    → select_header c v o ≡ (if c then some v else p)
set_last true v o p h = refl
set_last false v o p h = h

-- What the dictionary that the gateway hands to httpx has under a key, which is compared by its exact
-- letters: under `X-Correlation-ID` the correlation identifier, which is the request's or the one
-- given; under a key that is `accept`, `authorization` or `content-type` but for case, the last value
-- that the request has under just this key; under any other key nothing.
pub header-build_downstream_headers :
    (correlation_id : Text) (request : Request) (name : Text)
    → header name (build_downstream_headers correlation_id request) ≡ (
        if text_eq (codes "X-Correlation-ID") name
        then some (get_or (header (codes "x-correlation-id") request.headers) correlation_id)
        else if name_in (lower name) forwarded_headers
        then last_header name request.headers
        else none)
unfolding build_downstream_headers
header-build_downstream_headers correlation_id request name =
    header-set_header name _ _ (copy_headers [] request.headers)
    ∙ set_last (text_eq (codes "X-Correlation-ID") name) _ _ _ (
        header-copy_headers name request.headers _ [] refl
        ∙ chosen-none (is_forwarded name) (last_header name request.headers)
        ∙ ap (λ b. if b then last_header name request.headers else none) (is_forwarded_lem name))
