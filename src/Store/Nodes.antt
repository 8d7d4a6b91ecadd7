-- ===== src/Store/Nodes.antt =====
-- The nodes of the database and their ids.
use codespine.Common.{◌≡◌, false, List, [], ◌∷◌, text_eq, All}
use codespine.Schema.{StoredNode}

module _ {N : Type 0} where
  -- No two nodes have one id: the primary key of the table.
  abbrev pub UniqueIds : List (StoredNode N) → Type 0
  UniqueIds [] = Unit
  UniqueIds (x ∷ xs) = All (λ y. text_eq y.id x.id ≡ false) xs × UniqueIds xs
