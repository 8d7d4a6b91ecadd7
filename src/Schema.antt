-- ===== src/Schema.antt =====
-- src/schema/node.ts, src/schema/edge.ts and the StoredNode of src/store/kuzu_store.ts: the closed
-- vocabularies and the records of the graph. Ids, names and paths are texts.
mod JsonValue
mod Kinds
unfoldable pub use JsonValue.*
unfoldable pub use Kinds.*
use codespine.Common.{ℕ, Bool, Option, Text}

pub record Range : Type 0 where
  pub start_line : ℕ
  pub start_column : ℕ
  pub end_line : ℕ
  pub end_column : ℕ

module _ (N : Type 0) where
  pub record GraphNode : Type 0 where
    pub id : Text
    pub kind : NodeKind
    pub name : Text
    pub file_path : Text
    pub range : Option Range
    pub exported : Option Bool
    pub metadata : Option (Metadata N)

  pub record GraphEdge : Type 0 where
    pub id : Text
    pub kind : EdgeKind
    pub from : Text
    pub to : Text
    pub metadata : Option (Metadata N)

  -- A node read back from the store: its kind is the text of the column.
  pub record StoredNode : Type 0 where
    pub id : Text
    pub kind : Text
    pub name : Text
    pub file_path : Text
    pub start_line : ℕ
    pub end_line : ℕ
    pub metadata : Metadata N
