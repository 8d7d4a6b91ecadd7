-- ===== src/Cluster/Namer.antt =====
-- src/cluster/community_namer.ts. The indices of a request are whole and not negative, as the
-- command that reads them checks.
pub mod Groups
pub mod Plan
pub mod Manifest
use Prim.Native.Nat.{compare, Ordering}
use codespine.Common.{
  ℕ, zero, suc, ◌+◌, Bool, true, false, Option, none, some, List, [], ◌∷◌, ◌++◌, map, Text, codes,
  length, get_or, if◌then◌else◌, text_key, nat_key, text_eq, ltb,
}
use codespine.Common.Sort.{or_else, sort}
use codespine.Common.Strings.{compare_text}
use codespine.Common.JsMap
use codespine.Common.JsMap.{JsMap, keys}
use codespine.Schema.{Json, null, bool, num, str, arr, obj, Items, nil, cons, Metadata}
use codespine.Cluster.Labeler.{ordinal}

pub record AssignedNode : Type 0 where
  pub id : Text
  pub name : Text
  pub kind : Text
  pub file_path : Text
  pub community : Option ℕ
  pub current_label : Option Text

pub record CommunityMember : Type 0 where
  pub name : Text
  pub kind : Text
  pub file_path : Text

pub record CommunitySummary : Type 0 where
  pub index : ℕ
  pub current_label : Text
  pub size : ℕ
  pub members : List CommunityMember

pub record CommunitiesDump : Type 0 where
  pub community_count : ℕ
  pub communities : List CommunitySummary

pub record RenameChange : Type 0 where
  pub index : ℕ
  pub from : Text
  pub to : Text
  pub node_ids : List Text

pub record RenamePlan : Type 0 where
  pub changes : List RenameChange
  pub unknown_indexes : List ℕ

-- One round of the loop of `group`: a node without a community is dropped.
unfoldable pub add_to_group :
    Option ℕ → AssignedNode → JsMap ℕ (List AssignedNode) → JsMap ℕ (List AssignedNode)
add_to_group none node groups = groups
add_to_group (some index) node groups =
    JsMap.set groups index (get_or (JsMap.get groups index) [] ++ node ∷ [])

unfoldable pub group_by_community :
    List AssignedNode → JsMap ℕ (List AssignedNode) → JsMap ℕ (List AssignedNode)
group_by_community [] groups = groups
group_by_community (node ∷ nodes) groups =
    group_by_community nodes (add_to_group node.community node groups)

-- The first label that is not empty, else the ordinal.
unfoldable pub current_label_of : ℕ → List AssignedNode → Text
current_label_of index [] = ordinal index
current_label_of index (member ∷ members) = elim member.current_label [
  | none ↦ current_label_of index members
  | some [] ↦ current_label_of index members
  | some (c ∷ text) ↦ c ∷ text
]

-- File, then name, then kind.
abbrev pub by_file : AssignedNode → AssignedNode → Ordering
by_file a b =
    or_else (compare_text a.file_path b.file_path)
      (or_else (compare_text a.name b.name) (compare_text a.kind b.kind))

unfoldable pub sort_members : List AssignedNode → List AssignedNode
sort_members members = sort by_file members

unfoldable pub to_member : AssignedNode → CommunityMember
to_member node = record { name = node.name; kind = node.kind; file_path = node.file_path }

unfoldable pub to_summary : ℕ × List AssignedNode → CommunitySummary
to_summary (index, members) = record {
  index = index;
  current_label = current_label_of index members;
  size = length members;
  members = map to_member (sort_members members);
}

-- Size downwards, then index.
abbrev pub by_summary_size : CommunitySummary → CommunitySummary → Ordering
by_summary_size a b = or_else (compare b.size a.size) (compare a.index b.index)

unfoldable pub summarize : List AssignedNode → CommunitiesDump
summarize nodes =
    let groups = group_by_community nodes [] in
    record {
      community_count = length groups;
      communities = sort by_summary_size (map to_summary groups);
    }

-- One round of the loop of `plan`.
unfoldable pub plan_index : JsMap ℕ (List AssignedNode) → JsMap ℕ Text → ℕ → RenamePlan → RenamePlan
plan_index groups labels index plan = elim (JsMap.get groups index) [
  | none ↦ record plan { unknown_indexes = plan.unknown_indexes ++ index ∷ [] }
  | some members ↦
      let to = get_or (JsMap.get labels index) [] in
      let from = current_label_of index members in
      if text_eq from to then plan else record plan {
        changes =
            plan.changes
            ++ record {
              index = index;
              from = from;
              to = to;
              node_ids = map (λ (member : AssignedNode). member.id) members;
            }
              ∷ [];
      }
]

unfoldable pub plan_loop :
    JsMap ℕ (List AssignedNode) → JsMap ℕ Text → List ℕ → RenamePlan → RenamePlan
plan_loop groups labels [] plan = plan
plan_loop groups labels (index ∷ indices) plan =
    plan_loop groups labels indices (plan_index groups labels index plan)

unfoldable pub plan_renames : List AssignedNode → JsMap ℕ Text → RenamePlan
plan_renames nodes labels =
    plan_loop (group_by_community nodes []) labels (sort compare (keys labels))
      (record { changes = []; unknown_indexes = [] })

module _ {N : Type 0} where
  abbrev pub length_items : Items N → ℕ
  length_items nil = 0
  length_items (cons x xs) = suc (length_items xs)

  abbrev pub item_at : Items N → ℕ → Option (Json N)
  item_at nil i = none
  item_at (cons x xs) zero = some x
  item_at (cons x xs) (suc i) = item_at xs i

  -- `labelArray[index] = label`, within bounds.
  abbrev pub set_item : Items N → ℕ → Json N → Items N
  set_item nil i v = nil
  set_item (cons x xs) zero v = cons v xs
  set_item (cons x xs) (suc i) v = cons x (set_item xs i v)

  unfoldable pub set_labels : Items N → JsMap ℕ Text → Items N
  set_labels items [] = items
  set_labels items ((index, label) ∷ labels) =
      set_labels
        (if ltb index (length_items items) then set_item items index (str label) else items) labels

  -- With labels that are an array; anything else leaves the manifest as it is.
  unfoldable pub with_labels : Metadata N → JsMap ℕ Text → Option (Json N) → Metadata N
  with_labels manifest labels (some (arr items)) =
      JsMap.set manifest (codes "labels") (arr (set_labels items labels))
  with_labels manifest labels none = manifest
  with_labels manifest labels (some null) = manifest
  with_labels manifest labels (some (bool b)) = manifest
  with_labels manifest labels (some (num x)) = manifest
  with_labels manifest labels (some (str s)) = manifest
  with_labels manifest labels (some (obj f)) = manifest

  unfoldable pub update_manifest_labels : Option (Metadata N) → JsMap ℕ Text → Option (Metadata N)
  update_manifest_labels none labels = none
  update_manifest_labels (some manifest) labels =
      some (with_labels manifest labels (JsMap.get manifest (codes "labels")))
