-- ===== src/Enrich/Join/Resolve.antt =====
-- src/enrich/runtime_join.ts: from a frame to a node of the graph. The functions of `node:path` and
-- `node:url` are parameters.
use codespine.Common.{
  ℕ, suc, ◌-◌, Bool, true, false, not, ◌&&◌, ◌||◌, Option, none, some, List, [], ◌∷◌, ◌++◌, Text,
  codes, get_or, ltb, nat_beq, if◌then◌else◌, filter, includes, text_key, text_eq, drop, length,
}
use codespine.Common.Strings.{starts_with, ends_with, last_index_of, split, join}
use codespine.Common.Int.{ℤ, pos, negsuc}
use codespine.Common.JsMap
use codespine.Common.JsMap.{JsMap}

-- `RuntimeTargetNode`
pub record TargetNode : Type 0 where
  pub id : Text
  pub kind : Text
  pub name : Text
  pub file_path : Text
  pub start_line : ℕ
  pub end_line : ℕ

-- The part of a frame that the resolution reads.
pub record FrameRef : Type 0 where
  pub function_name : Text
  pub url : Text
  pub line : ℤ

pub data MatchVia : Type 0 where
  by_name by_range : MatchVia

pub data DropReason : Type 0 where
  no_file no_node ambiguous : DropReason

-- `NodeResolution`
pub data NodeResolution : Type 0 where
  resolved : TargetNode → MatchVia → NodeResolution
  unresolved : DropReason → NodeResolution

abbrev pub name_match_kinds : List Text
name_match_kinds =
    codes "Function" ∷ codes "Method" ∷ codes "Property" ∷ codes "Variable" ∷ codes "Class" ∷ []

abbrev pub FileIndex : Type 0
FileIndex = JsMap Text (List TargetNode)

-- The loop of `indexByFile`: a node joins the bucket of its file.
unfoldable pub index_nodes : FileIndex → List TargetNode → FileIndex
index_nodes m [] = m
index_nodes m (node ∷ nodes) =
    index_nodes (JsMap.set m node.file_path (get_or (JsMap.get m node.file_path) [] ++ node ∷ []))
      nodes

unfoldable pub index_by_file : List TargetNode → FileIndex
unfolding index_nodes
index_by_file nodes = index_nodes [] nodes

unfoldable pub is_meaningful_name : Text → Bool
is_meaningful_name name = ltb 0 (length name) && not (starts_with name (codes "("))

unfoldable pub candidate_names : Text → List Text
candidate_names name = elim (last_index_of name b'.') [
  | none ↦ name ∷ []
  | some dot ↦ if ltb dot (length name - 1) then name ∷ drop (suc dot) name ∷ [] else name ∷ []
]

unfoldable pub name_matches : List TargetNode → Text → List TargetNode
unfolding is_meaningful_name candidate_names
name_matches file_nodes name =
    if is_meaningful_name name
    then filter
        (λ node. includes name_match_kinds node.kind && includes (candidate_names name) node.name)
        file_nodes
    else []

-- Whether the node's range encloses a line.
unfoldable pub encloses : TargetNode → ℕ → Bool
encloses node line =
    if ltb node.start_line 1 || ltb node.end_line node.start_line
    then false
    else if ltb line node.start_line || ltb node.end_line line
    then false
    else true

abbrev pub span : TargetNode → ℕ
span node = node.end_line - node.start_line

-- Whether the node takes the place of the best one so far; before the first, `bestSpan` is infinite.
unfoldable pub improves : TargetNode → Option TargetNode → Bool
improves node none = true
improves node (some best) =
    ltb (span node) (span best)
    || (nat_beq (span node) (span best) && ltb best.start_line node.start_line)

-- The loop of `enclosingNode`.
unfoldable pub innermost : List TargetNode → ℕ → Option TargetNode → Option TargetNode
unfolding encloses improves
innermost [] line best = best
innermost (node ∷ nodes) line best =
    innermost nodes line (if encloses node line && improves node best then some node else best)

unfoldable pub enclosing_node : List TargetNode → ℤ → Option TargetNode
unfolding innermost
enclosing_node nodes (negsuc n) = none
enclosing_node nodes (pos line) = if ltb line 1 then none else innermost nodes line none

-- By range, where no name matched.
unfoldable pub resolve_by_range : Option TargetNode → NodeResolution
resolve_by_range none = unresolved no_node
resolve_by_range (some node) = resolved node by_range

-- Among several nodes of the name.
unfoldable pub disambiguate : Option TargetNode → NodeResolution
disambiguate none = unresolved ambiguous
disambiguate (some node) = resolved node by_name

unfoldable pub resolve_node : List TargetNode → FrameRef → NodeResolution
unfolding name_matches enclosing_node resolve_by_range disambiguate
resolve_node file_nodes frame = elim (name_matches file_nodes frame.function_name) [
  | [] ↦ resolve_by_range (enclosing_node file_nodes frame.line)
  | node ∷ [] ↦ resolved node by_name
  | a ∷ b ∷ rest ↦ disambiguate (enclosing_node (a ∷ b ∷ rest) frame.line)
]

-- What the join uses of `node:path` and `node:url`.
pub record NodePath : Type 0 where
  pub is_absolute : Text → Bool
  pub relative : Text → Text → Text
  pub file_url_to_path : Text → Text
  pub sep : ℕ

module _ (p : NodePath) where
  unfoldable pub to_posix : Text → Text
  to_posix value = if nat_beq p.sep b'/' then value else join b'/' (split p.sep value)

  unfoldable pub url_to_absolute : Text → Option Text
  url_to_absolute url =
      if starts_with url (codes "file://")
      then some (p.file_url_to_path url)
      else if p.is_absolute url
      then some url
      else none

  -- `normalizedAbsolute === filePath || normalizedAbsolute.endsWith('/' + filePath)`
  unfoldable pub is_suffix_match : Text → Text → Bool
  is_suffix_match absolute file_path =
      text_eq absolute file_path || ends_with absolute (b'/' ∷ file_path)

  -- The loop over `filePaths`; two different matches give nothing.
  unfoldable pub suffix_match : Text → List Text → Option Text → Option Text
  unfolding is_suffix_match
  suffix_match absolute [] found = found
  suffix_match absolute (path ∷ paths) found = elim (is_suffix_match absolute path) [
    | false ↦ suffix_match absolute paths found
    | true ↦ elim found [
      | none ↦ suffix_match absolute paths (some path)
      | some old ↦ elim (text_eq old path) [
        | true ↦ suffix_match absolute paths (some path)
        | false ↦ none
      ]
    ]
  ]

  -- A url inside `root` by its relative path, any other by a unique suffix.
  unfoldable pub resolve_absolute : Text → Text → FileIndex → List Text → Option Text
  unfolding to_posix suffix_match
  resolve_absolute absolute root by_file file_paths =
      let candidate = to_posix (p.relative root absolute) in
      if ltb 0 (length candidate)
        && not (starts_with candidate (codes ".."))
        && not (p.is_absolute candidate)
        && JsMap.has by_file candidate
      then some candidate
      else suffix_match (to_posix absolute) file_paths none

  unfoldable pub resolve_file_path : Text → Text → FileIndex → List Text → Option Text
  unfolding url_to_absolute resolve_absolute
  resolve_file_path url root by_file file_paths =
      if nat_beq (length url) 0 || starts_with url (codes "node:")
      then none
      else elim (url_to_absolute url) [
        | none ↦ if JsMap.has by_file url then some url else none
        | some absolute ↦ resolve_absolute absolute root by_file file_paths
      ]

  -- A frame to its node, or the reason why it has none.
  unfoldable pub resolve_in_index : FrameRef → FileIndex → List Text → Text → NodeResolution
  unfolding resolve_file_path resolve_node
  resolve_in_index frame by_file file_paths root =
      elim (resolve_file_path frame.url root by_file file_paths) [
        | none ↦ unresolved no_file
        | some path ↦ resolve_node (get_or (JsMap.get by_file path) []) frame
      ]
