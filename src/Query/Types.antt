-- ===== src/Query/Types.antt =====
-- The types of src/query/graph_query.ts, and the number type that they are over.
use Prim.Native.Nat.{Ordering}
use codespine.Common.{ℕ, Bool, true, false, List, Text}
use codespine.Common.Sort.{IsComparator}
use codespine.Schema.{Metadata, StoredNode}

-- The numbers of `metadata`: JavaScript's, without NaN. `compare` is the sign of a difference.
pub record Numbers : Type 1 where
  pub Number : Type 0
  pub of_ℕ : ℕ → Number
  pub zero : Number
  pub one : Number
  pub add : Number → Number → Number
  pub mul : Number → Number → Number
  pub div : Number → Number → Number
  pub compare : Number → Number → Ordering
  pub compare-IsComparator : IsComparator compare

-- `localeCompare`, which the runtime provides.
pub record Collation : Type 0 where
  pub locale_compare : Text → Text → Ordering
  pub locale_compare-IsComparator : IsComparator locale_compare

module _ {N : Type 0} where
  -- `a > b`, from the sign of `a - b`.
  abbrev pub greater : (N → N → Ordering) → N → N → Bool
  greater compare a b = elim (compare a b) [ Ordering.gt ↦ true | _ ↦ false ]

pub record SymbolRef (N : Type 0) : Type 0 where
  pub id : Text
  pub kind : Text
  pub name : Text
  pub file_path : Text
  pub start_line : ℕ
  pub metadata : Metadata N

unfoldable pub symbol_of : {N : Type 0} → StoredNode N → SymbolRef N
symbol_of node = record {
  id = node.id;
  kind = node.kind;
  name = node.name;
  file_path = node.file_path;
  start_line = node.start_line;
  metadata = node.metadata;
}

pub data HotspotMetric : Type 0 where
  self_time samples callers call_count blast_radius : HotspotMetric

-- A ranked symbol: the fields of its reference, its score and the metric.
pub record HotspotRef (N : Type 0) : Type 0 where
  pub symbol : SymbolRef N
  pub score : N
  pub metric : HotspotMetric

pub record HotspotReport (N : Type 0) : Type 0 where
  pub metric : HotspotMetric
  pub requested : HotspotMetric
  pub enriched : Bool
  pub fell_back : Bool
  pub measured_only : Bool
  pub hotspots : List (HotspotRef N)

-- A `CALLS` edge reduced to its ends and its weight.
pub record CallEdge (N : Type 0) : Type 0 where
  pub from_id : Text
  pub to_id : Text
  pub count : N
