-- ===== src/Tools/Bodies.antt =====
-- What the handlers of internal/tools put into their requests alike: bodies and pages of a list.
use ocis_mcp_server.Base.{
  ℕ, String, Bool, Option, none, some, List, [], ◌∷◌, ◌==◌, ◌++◌, nat_eq, length, if◌then◌else◌,
}
use ocis_mcp_server.Base.Ints.{ℤ, pos, negsuc, ◌+ℤ◌, is_positive, decimal, decimal_int}
use ocis_mcp_server.Grant.Arguments.{Json, Items, Members}
use ocis_mcp_server.Grant.Arguments.Items.{nil, item}
use ocis_mcp_server.Grant.Arguments.Json.{number, negative, text, array, object}
use ocis_mcp_server.Grant.Arguments.Members.{end, member}

-- A Go map as a body: its pairs, whose order means nothing.
unfoldable pub members : List (String × Json) → Members
members [] = end
members ((k, v) ∷ rest) = member k v (members rest)

abbrev pub fields : List (String × Json) → Json
unfolding members
fields ms = object (members ms)

-- Two lists in one: the operator is the texts' in the handlers.
abbrev pub joined {ℓ} : {A : Type ℓ} → List A → List A → List A
joined xs ys = xs ++ ys

unfoldable pub texts : List String → Items
texts [] = nil
texts (s ∷ rest) = item (text s) (texts rest)

unfoldable pub int : ℤ → Json
int (pos n) = number n
int (negsuc n) = negative n

-- `if value != "" { body[key] = value }`
unfoldable pub unless_empty : String → String → List (String × Json)
unless_empty key value = if value == "" then [] else (key, text value) ∷ []

-- `if value != nil { body[key] = *value }`
unfoldable pub if_given {ℓ} : {A : Type ℓ} → String → (A → Json) → Option A → List (String × Json)
if_given key f none = []
if_given key f (some a) = (key, f a) ∷ []

unfoldable pub total_json : ℤ → Json
unfolding int
total_json quota = fields (("total", int quota) ∷ [])

unfoldable pub recipient_items : List String → Items
recipient_items [] = nil
recipient_items (r ∷ rest) =
    item (fields (("objectId", text r) ∷ ("@libre.graph.recipient.type", text "user") ∷ []))
      (recipient_items rest)

unfoldable pub invite_body : List String → List String → List (String × Json)
unfolding recipient_items texts
invite_body ids roles =
    ("recipients", array (recipient_items ids)) ∷ ("roles", array (texts roles)) ∷ []

unfoldable pub link_type : String → String
link_type kind = if kind == "" then "view" else kind

-- the query of a list: `$search`, `$orderby` and `$filter` as far as they are given
unfoldable pub query_unless_empty : String → String → List (String × String)
query_unless_empty key value = if value == "" then [] else (key, value) ∷ []

unfoldable pub page_query : ℕ → ℤ → List (String × String)
unfolding decimal decimal_int is_positive
page_query limit offset =
    ("$top", decimal limit)
    ∷ (if is_positive offset then ("$skip", decimal_int offset) ∷ [] else [])

-- A page of a list, as `ListSpacesOutput`, `ListUsersOutput`, `ListGroupsOutput` and `SearchOutput`
-- hold it.
pub record ListOutput {ℓ} (A : Type ℓ) : Type ℓ where
  pub rows : List A
  pub total_count : ℕ
  pub has_more : Bool
  pub next_offset : ℤ

unfoldable pub list_output {ℓ} : {A : Type ℓ} → ℕ → ℤ → List A → ListOutput A
unfolding ◌+ℤ◌
list_output limit offset rows = record {
  rows = rows;
  total_count = length rows;
  has_more = nat_eq (length rows) limit;
  next_offset = offset +ℤ pos (length rows);
}
