-- ===== src/Cluster/Namer/Plan.antt =====
-- What `plan` makes of a request.
use Prim.Native.Nat.{compare}
use codespine.Common.{
  ℕ, ◌≡◌, refl, sym, ap, ◌∙◌, Bool, true, false, Option, none, some, List, [], ◌∷◌, ◌++◌, map, Text,
  inl, inr, Bool-cases, Option-cases, List-cases, filter, get_or, if◌then◌else◌, nat_key, text_eq,
  append_nil, append_cons, collect, collect-none, collect-some,
}
use codespine.Common.Sort.{IsSorted, sort, sort-IsSorted, by_number-IsComparator}
use codespine.Common.JsMap
use codespine.Common.JsMap.{JsMap, keys}
use codespine.Cluster.Namer.{
  AssignedNode, RenameChange, RenamePlan, group_by_community, current_label_of, plan_index,
  plan_loop, plan_renames,
}
use codespine.Cluster.Namer.Groups.{members_of, unless_empty, group_by_community-members}

abbrev pub is_empty {ℓ} : {A : Type ℓ} → List A → Bool
is_empty [] = true
is_empty (x ∷ xs) = false

-- The results along a list after those of its first element.
collect_step {ℓ κ} :
    {A : Type ℓ} {B : Type κ} (f : A → Option B) (ys : List B) (x : A) (xs : List A)
    → (ys ++ collect f (x ∷ [])) ++ collect f xs ≡ ys ++ collect f (x ∷ xs)
collect_step f ys x xs = elim (Option-cases (f x)) [
  | inl e ↦ rw (collect-none f x [] e, collect-none f x xs e, append_nil ys) refl
  | inr (y, e) ↦
      rw (collect-some f x [] y e, collect-some f x xs y e) (sym (append_cons ys y (collect f xs)))
]

filter_step {ℓ} :
    {A : Type ℓ} (p : A → Bool) (ys : List A) (x : A) (xs : List A)
    → (ys ++ filter p (x ∷ [])) ++ filter p xs ≡ ys ++ filter p (x ∷ xs)
filter_step p ys x xs = elim (Bool-cases (p x)) [
  | inl t ↦ rw t (sym (append_cons ys x (filter p xs)))
  | inr f ↦ rw (f, append_nil ys) refl
]

plan_equal :
    {cs ds : List RenameChange} {us vs : List ℕ}
    → cs ≡ ds
    → us ≡ vs
    → ◌≡◌ {A = RenamePlan}
        (record { changes = cs; unknown_indexes = us })
        (record { changes = ds; unknown_indexes = vs })
plan_equal p q = rw (p, q) refl

module _ (labels : JsMap ℕ Text) where
  -- The renaming of some members of a community to the label that is asked for: none where there is
  -- no member, and none where the label is what they have.
  abbrev pub change_of : ℕ → List AssignedNode → Option RenameChange
  change_of index [] = none
  change_of index (node ∷ nodes) =
      let from = current_label_of index (node ∷ nodes) in
      let to = get_or (JsMap.get labels index) [] in
      if text_eq from to
      then none
      else some (record {
        index = index;
        from = from;
        to = to;
        node_ids = map (λ (member : AssignedNode). member.id) (node ∷ nodes);
      })

  -- A plan with what follows from one more index, whose members are given.
  abbrev extended : RenamePlan → ℕ → List AssignedNode → RenamePlan
  extended plan index members = record {
    changes = plan.changes ++ collect (λ i. change_of i members) (index ∷ []);
    unknown_indexes = plan.unknown_indexes ++ filter (λ i. is_empty members) (index ∷ []);
  }

  module _ (groups : JsMap ℕ (List AssignedNode)) (index : ℕ) (plan : RenamePlan) where
    module _ (node : AssignedNode) (nodes : List AssignedNode)
        (e : JsMap.get groups index ≡ some (node ∷ nodes)) where
      abbrev is_same : Bool
      is_same = text_eq (current_label_of index (node ∷ nodes)) (get_or (JsMap.get labels index) [])

      plan_index_same : is_same ≡ true → plan_index groups labels index plan ≡ plan
      unfolding plan_index
      plan_index_same t = rw (e, t, plan_index) refl

      plan_index_changed :
          is_same ≡ false
          → (change : RenameChange) × ((change_of index (node ∷ nodes) ≡ some change)
              × (plan_index groups labels index plan
                  ≡ record plan { changes = plan.changes ++ change ∷ [] }))
      unfolding plan_index
      plan_index_changed f = (
        record {
          index = index;
          from = current_label_of index (node ∷ nodes);
          to = get_or (JsMap.get labels index) [];
          node_ids = map (λ (member : AssignedNode). member.id) (node ∷ nodes);
        },
        (rw (f, change_of) refl, rw (e, f, plan_index) refl),
      )

      plan_index_known : plan_index groups labels index plan ≡ extended plan index (node ∷ nodes)
      plan_index_known =
          let change_at : ℕ → Option RenameChange = λ i. change_of i (node ∷ nodes) in
          elim (Bool-cases is_same) [
            | inl t ↦
                let none_at : change_at index ≡ none = rw (t, change_of) refl in
                plan_index_same t
                ∙ plan_equal
                    (sym (
                      ap (λ cs. plan.changes ++ cs) (collect-none change_at index [] none_at)
                      ∙ append_nil plan.changes))
                    (sym (append_nil plan.unknown_indexes))
            | inr f ↦
                let (change, (c, q)) = plan_index_changed f in
                q
                ∙ plan_equal
                    (ap (λ cs. plan.changes ++ cs) (sym (collect-some change_at index [] change c)))
                    (sym (append_nil plan.unknown_indexes))
          ]

    plan_index_unknown :
        JsMap.get groups index ≡ none → plan_index groups labels index plan ≡ extended plan index []
    unfolding plan_index
    plan_index_unknown e = rw (e, plan_index) (rw (append_nil plan.changes) refl)

  -- The plan of indices, by the members that the request's nodes give them.
  module _ (nodes : List AssignedNode) where
    abbrev pub requested_change : ℕ → Option RenameChange
    requested_change index = change_of index (members_of nodes index)

    plan_index-extended :
        (index : ℕ) (plan : RenamePlan)
        → plan_index (group_by_community nodes []) labels index plan
          ≡ extended plan index (members_of nodes index)
    plan_index-extended index plan =
        let groups = group_by_community nodes [] in
        let at = group_by_community-members nodes index in
        elim (List-cases (members_of nodes index)) [
          | inl e ↦
              plan_index_unknown groups index plan (at ∙ ap unless_empty e)
              ∙ ap (extended plan index) (sym e)
          | inr (node, rest, e) ↦
              plan_index_known groups index plan node rest (at ∙ ap unless_empty e)
              ∙ ap (extended plan index) (sym e)
        ]

    plan_loop-collect :
        (indices : List ℕ) (plan : RenamePlan)
        → plan_loop (group_by_community nodes []) labels indices plan ≡ record {
          changes = plan.changes ++ collect requested_change indices;
          unknown_indexes =
              plan.unknown_indexes ++ filter (λ i. is_empty (members_of nodes i)) indices;
        }
    unfolding plan_loop
    plan_loop-collect [] plan =
        plan_equal (sym (append_nil plan.changes)) (sym (append_nil plan.unknown_indexes))
    plan_loop-collect (index ∷ indices) plan =
        ap (plan_loop (group_by_community nodes []) labels indices) (plan_index-extended index plan)
        ∙ plan_loop-collect indices (extended plan index (members_of nodes index))
        ∙ plan_equal (collect_step requested_change plan.changes index indices)
            (filter_step (λ i. is_empty (members_of nodes i)) plan.unknown_indexes index indices)

    -- plan takes the indices of the request in ascending order: those that no node has are the
    -- unknown ones, and each other one is a change, from the label that the members have to the one
    -- that is asked for and with the ids of all nodes of that community, unless the two are the same.
    pub plan_renames-collect :
        IsSorted compare (sort compare (keys labels))
        × ((plan_renames nodes labels).changes
            ≡ collect requested_change (sort compare (keys labels)))
        × ((plan_renames nodes labels).unknown_indexes
            ≡ filter (λ i. is_empty (members_of nodes i)) (sort compare (keys labels)))
    unfolding plan_renames
    plan_renames-collect =
        let indices = sort compare (keys labels) in
        let h = plan_loop-collect indices (record { changes = []; unknown_indexes = [] }) in
        (
          sort-IsSorted compare (by_number-IsComparator (λ i. i)) (keys labels),
          ap (λ (p : RenamePlan). p.changes) h,
          ap (λ (p : RenamePlan). p.unknown_indexes) h,
        )
