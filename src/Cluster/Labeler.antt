-- ===== src/Cluster/Labeler.antt =====
-- src/cluster/community_labeler.ts
pub mod Shared
pub mod Hub
use Prim.Native.Nat.{compare, Ordering}
use codespine.Common.{
  ℕ, ◌+◌, ◌≡◌, Bool, true, false, ◌&&◌, Option, none, some, List, [], ◌∷◌, ◌++◌, map, Text, codes,
  length, get_or, if◌then◌else◌, nat_beq, ltb, text_key, nat_key, text_eq, take, drop, suc,
  includes,
}
use codespine.Common.Sort.{or_else, sort}
use codespine.Common.Strings.{last_index_of, contains, compare_text, show}
use codespine.Common.JsMap
use codespine.Common.Rebuild.{rebuild, tally_keys}
use codespine.Common.JsMap.{JsMap, values}
use codespine.Query.Types.{Numbers}
use codespine.Cluster.Detector.{WeightedEdge}

pub record LabelableNode : Type 0 where
  pub id : Text
  pub name : Text
  pub kind : Text
  pub file_path : Text

-- The directory portion of a path, empty for a bare file name.
unfoldable pub directory_of : Text → Text
directory_of path = elim (last_index_of path b'/') [ none ↦ [] | some slash ↦ take slash path ]

-- What follows the last separator, or all of it without one.
unfoldable pub after_slash : Text → Text
after_slash path = elim (last_index_of path b'/') [
  | none ↦ path
  | some slash ↦ drop (suc slash) path
]

-- The final segment of a directory, or the whole of it when it has no separator.
unfoldable pub last_segment : Text → Text
last_segment [] = []
last_segment (c ∷ directory) = after_slash (c ∷ directory)

-- `fileName.slice(0, dot)` unless `dot <= 0`.
unfoldable pub without_extension : Text → Text
without_extension name = elim (last_index_of name b'.') [
  | none ↦ name
  | some dot ↦ if nat_beq dot 0 then name else take dot name
]

unfoldable pub base_name : Text → Text
base_name path = without_extension (after_slash path)

unfoldable pub display_name : LabelableNode → Text
display_name node =
    if text_eq node.kind (codes "Module") then base_name node.file_path else node.name

-- `community ${index}`
unfoldable pub ordinal : ℕ → Text
ordinal index = codes "community " ++ show index

-- `${a} · ${b}`; the middle dot is the code unit 183.
unfoldable pub with_area : Text → Text → Text
with_area a b = a ++ 32 ∷ 183 ∷ 32 ∷ b

unfoldable pub group_members :
    JsMap Text ℕ → List LabelableNode → JsMap ℕ (List LabelableNode) → JsMap ℕ (List LabelableNode)
group_members community_of [] groups = groups
group_members community_of (node ∷ nodes) groups = elim (JsMap.get community_of node.id) [
  | none ↦ group_members community_of nodes groups
  | some index ↦
      group_members community_of nodes
        (JsMap.set groups index (get_or (JsMap.get groups index) [] ++ node ∷ []))
]

-- Count downwards, then the shorter path, then code units.
abbrev pub by_dominance : Text × ℕ → Text × ℕ → Ordering
by_dominance a b =
    or_else (compare b.1 a.1) (or_else (compare (length a.0) (length b.0)) (compare_text a.0 b.0))

-- The directory that most members share, and how many do; `none` is no member.
unfoldable pub dominant_directory : List LabelableNode → Option (Text × ℕ)
dominant_directory members =
    elim (sort by_dominance (tally_keys (map (λ node. directory_of node.file_path) members) [])) [
      | [] ↦ none
      | first ∷ rest ↦ some first
    ]

-- `new Set(paths)`
unfoldable pub distinct : List Text → List Text → List Text
distinct [] seen = seen
distinct (path ∷ paths) seen =
    distinct paths (if includes seen path then seen else seen ++ path ∷ [])

-- `counts.get(label) > 1 ? rename(index, label) : label`, for each label.
unfoldable pub disambiguate : JsMap ℕ Text → (ℕ → Text → Text) → JsMap ℕ Text
disambiguate labels rename =
    let counts = tally_keys (values labels) [] in
    rebuild
      (λ index label.
        if ltb 1 (get_or (JsMap.get counts label) 0) then rename index label else label)
      labels []

-- A duplicated label gains the hub, when that adds information.
unfoldable pub rename_by_hub : JsMap ℕ (Option Text) → ℕ → Text → Text
rename_by_hub hubs index label = elim (get_or (JsMap.get hubs index) none) [
  | none ↦ label
  | some hub ↦ if contains label hub then label else with_area label hub
]

-- `${label} #${index}`
unfoldable pub rename_by_index : ℕ → Text → Text
rename_by_index index label = label ++ codes " #" ++ show index

unfoldable pub dedupe : JsMap ℕ Text → JsMap ℕ (Option Text) → JsMap ℕ Text
dedupe base hubs = disambiguate (disambiguate base (rename_by_hub hubs)) rename_by_index

module _ (n : Numbers) where
  open n use {Number, of_ℕ, add, div}

  -- `degree.set(id, (degree.get(id) ?? 0) + weight)`
  unfoldable pub add_degree : Text → Number → JsMap Text Number → JsMap Text Number
  add_degree id weight degree =
      JsMap.set degree id (add (get_or (JsMap.get degree id) n.zero) weight)

  -- Whether an edge stays inside a community, and is no self-loop.
  unfoldable pub is_internal : JsMap Text ℕ → WeightedEdge Number → Bool
  is_internal community_of edge =
      if text_eq edge.from edge.to then false else elim (JsMap.get community_of edge.from) [
        | none ↦ false
        | some from ↦ elim (JsMap.get community_of edge.to) [
          | none ↦ false
          | some to ↦ nat_beq from to
        ]
      ]

  unfoldable pub internal_degree :
      JsMap Text ℕ → List (WeightedEdge Number) → JsMap Text Number → JsMap Text Number
  internal_degree community_of [] degree = degree
  internal_degree community_of (edge ∷ edges) degree = internal_degree community_of edges (
      if is_internal community_of edge
      then add_degree edge.to edge.weight (add_degree edge.from edge.weight degree)
      else degree)

  -- Degree downwards, then name, then id; ids are distinct.
  abbrev pub by_degree : JsMap Text Number → LabelableNode → LabelableNode → Ordering
  by_degree degree a b =
      or_else
        (n.compare (get_or (JsMap.get degree b.id) n.zero) (get_or (JsMap.get degree a.id) n.zero))
        (or_else (compare_text a.name b.name) (compare_text a.id b.id))

  unfoldable pub hub_name : List LabelableNode → JsMap Text Number → Option Text
  hub_name members degree = elim (sort (by_degree degree) members) [
    | [] ↦ none
    | first ∷ rest ↦ some (display_name first)
  ]

  -- `purity >= DIRECTORY_PURITY_THRESHOLD`, of `count / members.length`.
  unfoldable pub is_pure : ℕ → ℕ → Bool
  is_pure count total = elim (n.compare (div (of_ℕ count) (of_ℕ total)) (div (of_ℕ 6) (of_ℕ 10))) [
    | Ordering.lt ↦ false
    | _ ↦ true
  ]

  -- The label of members that live in several files.
  unfoldable pub area_label : ℕ → ℕ → Option Text → Text × ℕ → Text
  area_label index total hub (directory, count) =
      let area = last_segment directory in
      let named = ltb 0 (length area) in
      if named && is_pure count total
      then elim hub [ none ↦ area | some h ↦ with_area area h ]
      else elim hub [ some h ↦ h | none ↦ if named then area else ordinal index ]

  -- The label of members that live in one file.
  unfoldable pub file_label : ℕ → Option Text → Text → Text
  file_label index hub file = if ltb 0 (length file) then file else get_or hub (ordinal index)

  unfoldable pub compose_label : ℕ → List LabelableNode → Option Text → Text
  compose_label index [] hub = ordinal index
  compose_label index (node ∷ nodes) hub =
      let members = node ∷ nodes in
      let files = distinct (map (λ m. m.file_path) members) [] in
      elim (nat_beq (length files) 1) [
        | true ↦ file_label index hub (base_name node.file_path)
        | false ↦ elim (dominant_directory members) [
          | none ↦ ordinal index
          | some dominant ↦ area_label index (length members) hub dominant
        ]
      ]

  unfoldable pub label :
      JsMap Text ℕ → List LabelableNode → List (WeightedEdge Number) → JsMap ℕ Text
  label community_of nodes edges =
      let groups = group_members community_of nodes [] in
      let degree = internal_degree community_of edges [] in
      let hubs = rebuild (λ index members. hub_name members degree) groups [] in
      let base =
        rebuild (λ index members. compose_label index members (hub_name members degree)) groups
          [] in
      dedupe base hubs
