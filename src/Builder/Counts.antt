-- ===== src/Builder/Counts.antt =====
-- Occurrence counts of the builder: what stands in the edge map after a list of edges was added.
use codespine.Common.{
  ℕ, ◌+◌, ◌≡◌, refl, ap, Option, none, some, List, [], ◌∷◌, Text, codes, get_or, text_key,
  if◌then◌else◌, text_eq_iff, Bool-cases, inl, inr, text_eq,
}
use native.Mathlib.Nat.{add_assoc, add-zero, zero-add}
use codespine.Common.JsMap
use codespine.Common.JsMap.{JsMap, get-set, UniqueKeys, set-UniqueKeys}
use codespine.Schema.{Metadata, num}
use codespine.Builder.{Edge, with_count, current_count, add_edge, add_edges, stored_edge}

-- How many edges of a list have the id.
abbrev pub occurrences : Text → List Edge → ℕ
occurrences k [] = 0
occurrences k (e ∷ es) = (if text_eq e.id k then 1 else 0) + occurrences k es

-- The first edge of a list with the id.
abbrev pub first_with_id : Text → List Edge → Option Edge
first_with_id k [] = none
first_with_id k (e ∷ es) = if text_eq e.id k then some e else first_with_id k es

-- `metadata` with its count written, for an edge seen `n` times after it was stored.
abbrev pub counted : Edge → ℕ → Edge
counted e n = record e { metadata = with_count e.metadata n }

with_count_twice :
    (m : Option (Metadata ℕ)) (a b : ℕ) → with_count (with_count m a) b ≡ with_count m b
unfolding with_count
with_count_twice m a b = ap some (JsMap.set-set (get_or m []) (codes "count") (num a) (num b))

pub current_count-with_count :
    (m : Option (Metadata ℕ)) (a : ℕ) → current_count (with_count m a) ≡ a
unfolding with_count current_count
current_count-with_count m a = rw (JsMap.get-set_self (get_or m []) (codes "count") (num a))

counted_again :
    (e : Edge) (n : ℕ)
    → record (counted e n) {
      metadata = with_count (counted e n).metadata (current_count (counted e n).metadata + 1);
    }
      ≡ counted e (n + 1)
counted_again e n =
    rw (current_count-with_count e.metadata n, with_count_twice e.metadata n (n + 1))

get-add_edge :
    (m : JsMap Text Edge) (x : Edge) (k : Text)
    → JsMap.get (add_edge m x) k
      ≡ (if text_eq x.id k then some (stored_edge (JsMap.get m k) x) else JsMap.get m k)
unfolding add_edge
get-add_edge m x k = elim (Bool-cases (text_eq x.id k)) [
  | inl p ↦ let e : x.id ≡ k = (text_eq_iff x.id k).0 p in rw (get-set, e, (text_eq_iff k k).1 refl)
  | inr q ↦ rw (get-set, q)
]

abbrev pub with_occurrences : Option Edge → ℕ → Option Edge
with_occurrences none n = none
with_occurrences (some e) n = some (counted e n)

-- What the map holds under an id that it had not, after the edges `es`.
abbrev pub first_counted : Text → List Edge → Option Edge
first_counted k es = with_occurrences (first_with_id k es) (occurrences k es)

get-add_edges-present :
    (es : List Edge) (m : JsMap Text Edge) (e : Edge) (n : ℕ) (k : Text)
    → JsMap.get m k ≡ some (counted e n)
    → JsMap.get (add_edges m es) k ≡ some (counted e (n + occurrences k es))
unfolding add_edges stored_edge
get-add_edges-present [] m e n k h = rw (add-zero n) h
get-add_edges-present (x ∷ es) m e n k h = elim (Bool-cases (text_eq x.id k)) [
  | inl p ↦
      rw (p, ← add_assoc n 1 (occurrences k es))
        (get-add_edges-present es (add_edge m x) e (n + 1) k
          (rw (get-add_edge m x k, p, h) (ap some (counted_again e n))))
  | inr q ↦
      rw (q, zero-add (occurrences k es))
        (get-add_edges-present es (add_edge m x) e n k (rw (get-add_edge m x k, q) h))
]

get-add_edges-absent :
    (es : List Edge) (m : JsMap Text Edge) (k : Text)
    → JsMap.get m k ≡ none
    → JsMap.get (add_edges m es) k ≡ first_counted k es
unfolding add_edges stored_edge
get-add_edges-absent [] m k h = h
get-add_edges-absent (x ∷ es) m k h = elim (Bool-cases (text_eq x.id k)) [
  | inl p ↦ rw p (get-add_edges-present es (add_edge m x) x 1 k (rw (get-add_edge m x k, p, h)))
  | inr q ↦
      rw (q, zero-add (occurrences k es))
        (get-add_edges-absent es (add_edge m x) k (rw (get-add_edge m x k, q) h))
]

-- After any edges, the map holds under an id the first of them with that id, its metadata kept but
-- for `count`, which is the number of the edges with that id; and nothing under any other id.
pub get-add_edges : (es : List Edge) (k : Text) → JsMap.get (add_edges [] es) k ≡ first_counted k es
get-add_edges es k = get-add_edges-absent es [] k (unfold JsMap.get in refl)
