-- ===== src/SmartObjects/Service.antt =====
-- src/models/transaction.rs: `parse_service_node`, the data of a Service Node object.
use sth_core_pq.Base.{
  ℕ, ◌+◌, ◌-◌, ◌*◌, ◌^◌, not, ◌&&◌, ◌||◌, Option, none, some, List, [], ◌∷◌, length, any, all, map,
  Text, text_eq, ascii, ltb, leb, ◌==◌, if◌then◌else◌, to_ascii_lowercase, is_ascii_hexdigit,
}

-- `s.split(c)`
pub split : ℕ → Text → List Text
split c [] = [] ∷ []
split c (x ∷ s) = elim (split c s) [
  | [] ↦ []
  | piece ∷ pieces ↦ if x == c then [] ∷ piece ∷ pieces else (x ∷ piece) ∷ pieces
]

-- `s.split_once(c)`
pub split_once : ℕ → Text → Option (Text × Text)
split_once c [] = none
split_once c (x ∷ s) =
    let rest = split_once c s in
    if x == c then some ([], s) else elim rest [ none ↦ none | some (a, b) ↦ some (x ∷ a, b) ]

pub strip_prefix : Text → Text → Option Text
strip_prefix [] s = some s
strip_prefix (x ∷ p) [] = none
strip_prefix (x ∷ p) (y ∷ s) = let rest = strip_prefix p s in if x == y then rest else none

pub non_empty : List Text → List Text
non_empty [] = []
non_empty (s ∷ ss) = let rest = non_empty ss in if length s == 0 then rest else s ∷ rest

-- The digits of a u32, after those whose value is `n`.
pub digits : ℕ → Text → Option ℕ
digits n [] = some n
digits n (c ∷ s) =
    let m = n * 10 + (c - 48) in
    let rest = digits m s in if leb 48 c && leb c 57 && ltb m (2 ^ 32) then rest else none

-- `s.parse::<u32>()`: a plus sign may stand in front of the digits.
pub parse_u32 : Text → Option ℕ
parse_u32 [] = none
parse_u32 (c ∷ s) =
    let plain = digits 0 (c ∷ s) in
    let signed = digits 0 s in if c == 43 then (if length s == 0 then none else signed) else plain

pub record ServiceNode : Type 0 where
  pub id : Text
  pub roles : List Text
  pub api : Option Text
  pub storage : Option ℕ

pub service_roles : List Text
service_roles =
    ascii "relay" ∷ ascii "seeder" ∷ ascii "messenger" ∷ ascii "microblog" ∷ ascii "provider" ∷ []

-- One `key=value` of the query.
pub set_field : ServiceNode → Text → Text → Option ServiceNode
set_field n k v =
    if text_eq k (ascii "roles")
    then some (record n { roles = map to_ascii_lowercase (non_empty (split 44 v)) })
    else if text_eq k (ascii "api")
    then some (record n { api = some v })
    else if text_eq k (ascii "storage")
    then elim (parse_u32 v) [ none ↦ none | some gib ↦ some (record n { storage = some gib }) ]
    else none

pub set_fields : List Text → ServiceNode → Option ServiceNode
set_fields [] n = some n
set_fields (kv ∷ kvs) n = elim (split_once 61 kv) [
  | none ↦ none
  | some (k, v) ↦ elim (set_field n k v) [ none ↦ none | some m ↦ set_fields kvs m ]
]

-- The part before the question mark, and the part after it.
pub id_query : Text → Text × Text
id_query rest = elim (split_once 63 rest) [ none ↦ (rest, []) | some (id, query) ↦ (id, query) ]

pub known_roles : ServiceNode → Option ServiceNode
known_roles n =
    if length n.roles == 0 || any (λ r. not (any (λ s. text_eq s r) service_roles)) n.roles
    then none
    else some (record n { id = to_ascii_lowercase n.id })

pub parse_service_node : Text → Option ServiceNode
parse_service_node s = elim (strip_prefix (ascii "iroh://") s) [
  | none ↦ none
  | some rest ↦
      let (id, query) = id_query rest in
      if not (length id == 64) || not (all is_ascii_hexdigit id)
      then none
      else elim (set_fields (non_empty (split 38 query))
          record { id = id; roles = []; api = none; storage = none }) [
            | none ↦ none
            | some n ↦ known_roles n
          ]
]
