-- ===== src/Query/Rows.antt =====
-- Reading rows and `metadata`: `readCallEdges`, `readRuntimeCallEdges`, `runtimeValue`, `hasRuntime`
-- and the decoders of src/query/graph_query.ts. The rows that Kùzu returns for the queries are
-- arguments, and `JSON.parse` is a parameter that answers `none` where it throws.
use codespine.Common.{
  ℕ, Bool, true, false, Option, none, some, List, [], ◌∷◌, map, Text, codes, get_or, if◌then◌else◌,
  nat_beq, length, text_key,
}
use codespine.Common.JsMap
use codespine.Schema.{
  Json, null, bool, num, str, arr, obj, Fields, end, field, Metadata, member, as_number,
}
use codespine.Query.Types.{Numbers, CallEdge, SymbolRef, greater}

-- A value in a row: a text, or one of another type.
pub data KuzuValue : Type 0 where
  text : Text → KuzuValue
  other : KuzuValue

-- A row of a query that returns `fromId`, `toId` and `metadata`.
pub record EdgeRow : Type 0 where
  pub from_id : Text
  pub to_id : Text
  pub metadata : KuzuValue

-- A row of a query that returns the columns of a symbol.
pub record SymbolRow : Type 0 where
  pub id : Text
  pub kind : Text
  pub name : Text
  pub file_path : Text
  pub start_line : ℕ
  pub metadata : KuzuValue

module _ (n : Numbers) where
  open n use {Number, zero, one, compare}

  unfoldable pub fields_map : Fields Number → Metadata Number
  fields_map end = []
  fields_map (field k v r) = (k, v) ∷ fields_map r

  -- A parsed value as a record; an array is one without our keys.
  unfoldable pub record_of : Option (Json Number) → Metadata Number
  unfolding fields_map
  record_of none = []
  record_of (some null) = []
  record_of (some (bool b)) = []
  record_of (some (num x)) = []
  record_of (some (str s)) = []
  record_of (some (arr xs)) = []
  record_of (some (obj f)) = fields_map f

  module _ (parse_json : Text → Option (Json Number)) where
    unfoldable pub parse_metadata : KuzuValue → Metadata Number
    unfolding record_of
    parse_metadata other = []
    parse_metadata (text s) = if nat_beq (length s) 0 then [] else record_of (parse_json s)

    -- `typeof count === 'number' && count > 0 ? count : 1`
    unfoldable pub call_count_of : KuzuValue → Number
    unfolding parse_metadata
    call_count_of value = elim (as_number (JsMap.get (parse_metadata value) (codes "count"))) [
      | none ↦ one
      | some count ↦ if greater compare count zero then count else one
    ]

    -- `typeof samples === 'number' && samples >= 0 ? samples : 1`
    unfoldable pub edge_samples : KuzuValue → Number
    unfolding parse_metadata
    edge_samples value = elim (as_number (JsMap.get (parse_metadata value) (codes "samples"))) [
      | none ↦ one
      | some samples ↦ if greater compare zero samples then one else samples
    ]

    unfoldable pub read_call_edges : List EdgeRow → List (CallEdge Number)
    unfolding call_count_of
    read_call_edges rows =
        map
          (λ row. record {
            from_id = row.from_id;
            to_id = row.to_id;
            count = call_count_of row.metadata;
          })
          rows

    unfoldable pub read_runtime_call_edges : List EdgeRow → List (CallEdge Number)
    unfolding edge_samples
    read_runtime_call_edges rows =
        map
          (λ row. record {
            from_id = row.from_id;
            to_id = row.to_id;
            count = edge_samples row.metadata;
          })
          rows

    unfoldable pub to_ref : SymbolRow → SymbolRef Number
    unfolding parse_metadata
    to_ref row = record {
      id = row.id;
      kind = row.kind;
      name = row.name;
      file_path = row.file_path;
      start_line = row.start_line;
      metadata = parse_metadata row.metadata;
    }

    unfoldable pub to_refs : List SymbolRow → List (SymbolRef Number)
    unfolding to_ref
    to_refs rows = map to_ref rows

  -- `typeof runtime === 'object' && runtime !== null`
  unfoldable pub is_object : Option (Json Number) → Bool
  is_object none = false
  is_object (some null) = false
  is_object (some (bool b)) = false
  is_object (some (num x)) = false
  is_object (some (str s)) = false
  is_object (some (arr xs)) = true
  is_object (some (obj f)) = true

  unfoldable pub has_runtime : Metadata Number → Bool
  unfolding is_object
  has_runtime metadata = is_object (JsMap.get metadata (codes "runtime"))

  -- The number under a key of `metadata.runtime`, 0 where there is none.
  unfoldable pub runtime_value : Metadata Number → Text → Number
  unfolding member
  runtime_value metadata key = elim (JsMap.get metadata (codes "runtime")) [
    | none ↦ zero
    | some runtime ↦ get_or (as_number (member runtime key)) zero
  ]
