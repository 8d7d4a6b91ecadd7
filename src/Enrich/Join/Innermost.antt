-- ===== src/Enrich/Join/Innermost.antt =====
-- `enclosingNode` of src/enrich/runtime_join.ts picks an innermost node around a line.
use codespine.Common.{
  ℕ, ◌≤◌, ◌<◌, ◌≡◌, refl, ◌↔◌, ◌⊎◌, inl, inr, true, false, ◌&&◌, Option, none, some, List, [], ◌∷◌,
  ◌++◌, arith, All, All-append, In, append_cons, if◌then◌else◌, Bool-cases, ltb,
}
use mathlib.Core.List.{append-nil}
use codespine.Common.Int.{pos}
use codespine.Enrich.Join.Resolve.{TargetNode, encloses, span, improves, innermost, enclosing_node}

abbrev pub Encloses : TargetNode → ℕ → Type 0
Encloses node line = (1 ≤ node.start_line) × (node.start_line ≤ line) × (line ≤ node.end_line)

encloses_iff : (node : TargetNode) (line : ℕ) → (encloses node line ≡ true) ↔ Encloses node line
unfolding encloses
encloses_iff node line = (λ h. ground arith, λ h. ground arith)

-- `n` is at least as deeply nested as `m`: a narrower range, or as wide and starting no earlier.
abbrev pub AsInner : TargetNode → TargetNode → Type 0
AsInner n m = (span n < span m) ⊎ ((span n ≡ span m) × (m.start_line ≤ n.start_line))

AsInner-trans : (a b c : TargetNode) → AsInner a b → AsInner b c → AsInner a c
AsInner-trans a b c p q = ground arith

-- The answer is right for a list of nodes and a line.
abbrev pub IsInnermost : Option TargetNode → List TargetNode → ℕ → Type 0
IsInnermost none nodes line = All (λ m. ¬ Encloses m line) nodes
IsInnermost (some n) nodes line =
    In n nodes × Encloses n line × All (λ m. Encloses m line → AsInner n m) nodes

In-append : (n : TargetNode) (xs ys : List TargetNode) → In n xs → In n (xs ++ ys)
In-append n [] ys h = absurd h
In-append n (x ∷ xs) ys h = elim h [ inl e ↦ inl e | inr r ↦ inr (In-append n xs ys r) ]

In-last : (n : TargetNode) (xs : List TargetNode) → In n (xs ++ n ∷ [])
In-last n [] = inl refl
In-last n (x ∷ xs) = inr (In-last n xs)

outdone :
    (n b : TargetNode) (line : ℕ) (xs : List TargetNode)
    → AsInner n b
    → All (λ m. Encloses m line → AsInner b m) xs
    → All (λ m. Encloses m line → AsInner n m) xs
outdone n b line [] h a = tt
outdone n b line (x ∷ xs) h a = (λ e. AsInner-trans n b x h (a.0 e), outdone n b line xs h a.1)

first_found :
    (n : TargetNode) (line : ℕ) (xs : List TargetNode)
    → All (λ m. ¬ Encloses m line) xs
    → All (λ m. Encloses m line → AsInner n m) xs
first_found n line [] a = tt
first_found n line (x ∷ xs) a = (λ e. absurd (a.0 e), first_found n line xs a.1)

improves→AsInner : (n b : TargetNode) → improves n (some b) ≡ true → AsInner n b
unfolding improves
improves→AsInner n b h = ground arith

improves-none : (n : TargetNode) → improves n none ≡ true
unfolding improves
improves-none n = refl

kept→AsInner : (n b : TargetNode) → improves n (some b) ≡ false → AsInner b n
unfolding improves
kept→AsInner n b h = ground arith

-- The body of the loop.
abbrev better : TargetNode → ℕ → Option TargetNode → Option TargetNode
better node line best = if encloses node line && improves node best then some node else best

-- A node that does not enclose the line changes nothing.
better_outside :
    (node : TargetNode) (line : ℕ) (best : Option TargetNode) (before : List TargetNode)
    → encloses node line ≡ false
    → IsInnermost best before line
    → IsInnermost best (before ++ node ∷ []) line
better_outside node line none before q h =
    All-append _ before (node ∷ []) h (λ e. cc (q, (encloses_iff node line).1 e), tt)
better_outside node line (some b) before q h = (
  In-append b before (node ∷ []) h.0,
  h.1,
  All-append _ before (node ∷ []) h.2 (λ e. absurd (cc (q, (encloses_iff node line).1 e)), tt),
)

better-IsInnermost :
    (node : TargetNode) (line : ℕ) (best : Option TargetNode) (before : List TargetNode)
    → IsInnermost best before line
    → IsInnermost (better node line best) (before ++ node ∷ []) line
better-IsInnermost node line best before h = elim (Bool-cases (encloses node line)) [
  | inr q ↦ rw q (better_outside node line best before q h)
  | inl p ↦ rw p (inside best h ((encloses_iff node line).0 p))
]
  where
    self : All (λ m. Encloses m line → AsInner node m) (node ∷ [])
    self = (λ e. inr (refl, omega arith), tt)

    inside :
        (best : Option TargetNode)
        → IsInnermost best before line
        → Encloses node line
        → IsInnermost (if improves node best then some node else best) (before ++ node ∷ []) line
    inside none h e = rw (improves-none node) (
      In-last node before,
      e,
      All-append _ before (node ∷ []) (first_found node line before h) self,
    )
    inside (some b) h e = elim (Bool-cases (improves node (some b))) [
      | inl i ↦ rw i (
        In-last node before,
        e,
        All-append _ before (node ∷ []) (outdone node b line before (improves→AsInner node b i) h.2)
            self,
      )
      | inr k ↦ rw k (
        In-append b before (node ∷ []) h.0,
        h.1,
        All-append _ before (node ∷ []) h.2 (λ e. kept→AsInner node b k, tt),
      )
    ]

innermost-IsInnermost :
    (nodes : List TargetNode) (line : ℕ) (best : Option TargetNode) (before : List TargetNode)
    → IsInnermost best before line
    → IsInnermost (innermost nodes line best) (before ++ nodes) line
unfolding innermost
innermost-IsInnermost [] line best before h = rw (append-nil before) h
innermost-IsInnermost (node ∷ nodes) line best before h = rw (append_cons before node nodes) (
    innermost-IsInnermost nodes line (better node line best) (before ++ node ∷ [])
      (better-IsInnermost node line best before h))

-- For a line from 1 on, `enclosingNode` answers with a node of the list whose range encloses the
-- line and that is nested at least as deeply as every other such node (narrower, or as wide and
-- starting no earlier); it answers with nothing exactly where no range encloses the line.
pub enclosing_node-IsInnermost :
    (nodes : List TargetNode) (line : ℕ)
    → 1 ≤ line
    → IsInnermost (enclosing_node nodes (pos line)) nodes line
unfolding enclosing_node
enclosing_node-IsInnermost nodes line h = elim (Bool-cases (ltb line 1)) [
  | inl p ↦ absurd (ground arith)
  | inr q ↦ rw q (innermost-IsInnermost nodes line none [] tt)
]
