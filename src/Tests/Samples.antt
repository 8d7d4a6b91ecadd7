-- ===== src/Tests/Samples.antt =====
-- Sample data for the tests: numbers, a collation, paths, nodes and rows.
use Prim.Native.Nat.{compare}
use Prim.Native.String.{String}
use codespine.Common.{Text, List, map, refl, text_key, ℕ, ◌+◌, ◌*◌, ◌/◌, [], ◌∷◌, codes, false}
use codespine.Common.Sort.{by_number-IsComparator}
use codespine.Common.Strings.{compare_text, compare_text-IsComparator}
use codespine.Schema.{StoredNode, Metadata, obj, field, end, num}
use codespine.Common.JsMap
use codespine.Common.JsMap.{JsMap}
use codespine.Store.{Database, overwrite}
use codespine.Query.Types.{Numbers, Collation, CallEdge, SymbolRef}
use codespine.Enrich.Join.Resolve.{NodePath, TargetNode}

abbrev pub naturals : Numbers
naturals = record {
  Number = ℕ;
  of_ℕ = λ n. n;
  zero = 0;
  one = 1;
  add = λ a b. a + b;
  mul = λ a b. a * b;
  div = λ a b. a / b;
  compare = compare;
  compare-IsComparator = by_number-IsComparator (λ n. n);
}

abbrev pub code_units : Collation
code_units = record {
  locale_compare = compare_text;
  locale_compare-IsComparator = compare_text-IsComparator;
}

-- Paths that are relative already.
abbrev pub plain_paths : NodePath
plain_paths = record {
  is_absolute = λ p. false;
  relative = λ from to. to;
  file_url_to_path = λ url. url;
  sep = b'/';
}

abbrev pub target : String → ℕ → ℕ → TargetNode
target name from to = record {
  id = codes name;
  kind = codes "Function";
  name = codes name;
  file_path = codes "a.ts";
  start_line = from;
  end_line = to;
}

abbrev pub measured : ℕ → Metadata ℕ
measured n = (codes "runtime", obj (field (codes "selfMs") (num n) end)) ∷ []

abbrev pub stored : String → ℕ → Metadata ℕ → StoredNode ℕ
stored name line metadata = record {
  id = codes name;
  kind = codes "Function";
  name = codes name;
  file_path = codes "a.ts";
  start_line = line;
  end_line = line + 1;
  metadata = metadata;
}

abbrev pub call : String → String → ℕ → CallEdge ℕ
call from to n = record { from_id = codes from; to_id = codes to; count = n }

abbrev pub ref_to : String → ℕ → SymbolRef ℕ
ref_to name line = record {
  id = codes name;
  kind = codes "Function";
  name = codes name;
  file_path = codes "a.ts";
  start_line = line;
  metadata = [];
}

-- A database, kept as lists.
pub record Tables : Type 0 where
  pub nodes : List (StoredNode ℕ)
  pub meta : JsMap Text (Metadata ℕ)

abbrev pub database : Database ℕ
database = record {
  State = Tables;
  nodes = λ s. s.nodes;
  merge_node = λ node s. s;
  merge_edge = λ edge s. s;
  delete_edges = λ kind s. s;
  set_metadata = λ id m s. record s { nodes = map (overwrite id m) s.nodes };
  set_meta = λ key m s. record s { meta = JsMap.set s.meta key m };
  nodes-set_metadata = λ id m s. refl;
  nodes-merge_edge = λ e s. refl;
  nodes-delete_edges = λ k s. refl;
  nodes-set_meta = λ k m s. refl;
}

abbrev pub tables : Tables
tables = record {
  nodes = stored "f" 1 ((codes "community", num 3) ∷ []) ∷ stored "g" 8 [] ∷ [];
  meta = [];
}
