-- ===== src/Cluster/Namer/Groups.antt =====
-- The communities by index, and the dump of `summarize`.
use codespine.Common.{
  append_nil, ℕ, ◌+◌, ◌≡◌, refl, sym, ap, ◌∙◌, Bool, true, false, Option, none, some, List, [], ◌∷◌,
  ◌++◌, map, inl, inr, Bool-cases, Option-cases, arith, length, length-append, sum_by, filter,
  get_or, nat_beq, nat_beq_iff, nat_key, append_cons,
}
use codespine.Common.Sort.{
  IsSorted, sort-IsSorted, sort-sum_by, IsComparator, or_else-IsComparator, by_number-IsComparator,
  reverse-IsComparator,
}
use codespine.Common.JsMap
use codespine.Common.JsMap.{JsMap, values, sum_by-set_more}
use codespine.Cluster.Namer.{
  AssignedNode, CommunitySummary, add_to_group, group_by_community, to_summary, by_summary_size,
  summarize,
}

abbrev pub is_in : ℕ → AssignedNode → Bool
is_in index node = elim node.community [ none ↦ false | some i ↦ nat_beq i index ]

-- The nodes of a community, in their order; `none` where there are none.
abbrev pub members_of : List AssignedNode → ℕ → List AssignedNode
members_of nodes index = filter (is_in index) nodes

abbrev pub unless_empty {ℓ} : {A : Type ℓ} → List A → Option (List A)
unless_empty [] = none
unless_empty (x ∷ xs) = some (x ∷ xs)

-- What a group becomes when members are added at its end.
abbrev extended : Option (List AssignedNode) → List AssignedNode → Option (List AssignedNode)
extended none members = unless_empty members
extended (some first) members = some (first ++ members)

extended_none : (o : Option (List AssignedNode)) → o ≡ extended o []
extended_none none = refl
extended_none (some first) = ap some (sym (append_nil first))

extended_one :
    (o : Option (List AssignedNode)) (node : AssignedNode) (rest : List AssignedNode)
    → some ((get_or o [] ++ node ∷ []) ++ rest) ≡ extended o (node ∷ rest)
extended_one none node rest = refl
extended_one (some first) node rest = ap some (sym (append_cons first node rest))

module _ (node : AssignedNode) (index : ℕ) where
  is_in-none : node.community ≡ none → is_in index node ≡ false
  is_in-none e = rw (e, is_in) refl

  is_in-some : (i : ℕ) → node.community ≡ some i → is_in index node ≡ nat_beq i index
  is_in-some i e = rw (e, is_in) refl

module _ (node : AssignedNode) (nodes : List AssignedNode)
    (groups : JsMap ℕ (List AssignedNode)) where
  group_by_community_skip :
      node.community ≡ none
      → group_by_community (node ∷ nodes) groups ≡ group_by_community nodes groups
  unfolding group_by_community add_to_group
  group_by_community_skip e = ap (λ o. group_by_community nodes (add_to_group o node groups)) e

  group_by_community_keep :
      (i : ℕ)
      → node.community ≡ some i
      → group_by_community (node ∷ nodes) groups
        ≡ group_by_community nodes
            (JsMap.set groups i (get_or (JsMap.get groups i) [] ++ node ∷ []))
  unfolding group_by_community add_to_group
  group_by_community_keep i e = ap (λ o. group_by_community nodes (add_to_group o node groups)) e

group_by_community-extended :
    (nodes : List AssignedNode) (groups : JsMap ℕ (List AssignedNode)) (index : ℕ)
    → JsMap.get (group_by_community nodes groups) index
      ≡ extended (JsMap.get groups index) (members_of nodes index)
unfolding group_by_community
group_by_community-extended [] groups index = extended_none (JsMap.get groups index)
group_by_community-extended (node ∷ nodes) groups index =
    let at : JsMap ℕ (List AssignedNode) → Option (List AssignedNode) = λ m. JsMap.get m index in
    let rest = members_of nodes index in
    elim (Option-cases node.community) [
      | inl e ↦
          ap at (group_by_community_skip node nodes groups e)
          ∙ group_by_community-extended nodes groups index
          ∙ rw (is_in-none node index e) refl
      | inr (i, e) ↦
          let ms = get_or (JsMap.get groups i) [] ++ node ∷ [] in
          ap at (group_by_community_keep node nodes groups i e)
          ∙ group_by_community-extended nodes (JsMap.set groups i ms) index
          ∙ rw (is_in-some node index i e, JsMap.get-set groups i index ms)
              (elim (Bool-cases (nat_beq i index)) [
                | inl t ↦
                    let q = (nat_beq_iff i index).0 t in
                    rw t (rw q (extended_one (JsMap.get groups index) node rest))
                | inr f ↦ rw f refl
              ])
    ]

-- The group of an index is the nodes of that community.
pub group_by_community-members :
    (nodes : List AssignedNode) (index : ℕ)
    → JsMap.get (group_by_community nodes []) index ≡ unless_empty (members_of nodes index)
unfolding JsMap.get
group_by_community-members nodes index = group_by_community-extended nodes [] index

-- Whether a node has a community.
abbrev pub is_assigned : AssignedNode → Bool
is_assigned node = elim node.community [ none ↦ false | some i ↦ true ]

module _ (node : AssignedNode) where
  is_assigned-none : node.community ≡ none → is_assigned node ≡ false
  is_assigned-none e = rw (e, is_assigned) refl

  is_assigned-some : (i : ℕ) → node.community ≡ some i → is_assigned node ≡ true
  is_assigned-some i e = rw (e, is_assigned) refl

group_by_community-length :
    (nodes : List AssignedNode) (groups : JsMap ℕ (List AssignedNode))
    → sum_by length (values (group_by_community nodes groups))
      ≡ sum_by length (values groups) + length (filter is_assigned nodes)
unfolding group_by_community
group_by_community-length [] groups = omega arith
group_by_community-length (node ∷ nodes) groups =
    let total : JsMap ℕ (List AssignedNode) → ℕ = λ m. sum_by length (values m) in
    elim (Option-cases node.community) [
      | inl e ↦
          ap total (group_by_community_skip node nodes groups e)
          ∙ group_by_community-length nodes groups
          ∙ rw (is_assigned-none node e) refl
      | inr (i, e) ↦
          let ms = get_or (JsMap.get groups i) [] in
          let more =
            sum_by-set_more length groups i [] (ms ++ node ∷ []) 1 refl
              (length-append ms (node ∷ [])) in
          ap total (group_by_community_keep node nodes groups i e)
          ∙ group_by_community-length nodes (JsMap.set groups i (ms ++ node ∷ []))
          ∙ rw (is_assigned-some node i e) (omega (arith, more))
    ]

by_summary_size-IsComparator : IsComparator by_summary_size
by_summary_size-IsComparator =
    or_else-IsComparator
      (reverse-IsComparator (by_number-IsComparator (λ (s : CommunitySummary). s.size)))
      (by_number-IsComparator (λ (s : CommunitySummary). s.index))

sum_by-to_summary :
    (groups : JsMap ℕ (List AssignedNode))
    → sum_by (λ s. s.size) (map to_summary groups) ≡ sum_by length (values groups)
unfolding to_summary
sum_by-to_summary [] = refl
sum_by-to_summary ((index, members) ∷ groups) =
    ap (λ k. length members + k) (sum_by-to_summary groups)

-- The dump lists the larger communities first, equals by index, and loses no node: the sizes of its
-- communities add up to the number of nodes that have a community.
pub summarize-IsSorted :
    (nodes : List AssignedNode)
    → IsSorted by_summary_size (summarize nodes).communities
      × (sum_by (λ s. s.size) (summarize nodes).communities ≡ length (filter is_assigned nodes))
unfolding summarize
summarize-IsSorted nodes = (
  sort-IsSorted by_summary_size by_summary_size-IsComparator
      (map to_summary (group_by_community nodes [])),
  sort-sum_by by_summary_size (λ s. s.size) (map to_summary (group_by_community nodes []))
      ∙ sum_by-to_summary (group_by_community nodes [])
      ∙ group_by_community-length nodes []
      ∙ omega arith,
)
