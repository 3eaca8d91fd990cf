-- ===== src/Indexer/Tree/Place.antt =====
-- Setting the leaves of a sparse tree (the first loop of `root` and of `path` in
-- services/indexer/src/tree.rs).
use veil_contract.Prelude.{
  ℕ, ◌≡◌, ◌↔◌, refl, ◌<◌, [], ◌∷◌, Option, some, none, false, ◌||◌, All, arith, ◌==◌, leb, ok,
  passed, leb-false→lt, lt→leb,
}
use veil_contract.Indexer.Tree.{Nodes, get, contains_key, insert, place_leaves, capacity_of}
use veil_contract.Indexer.Tree.Nodes.{get-insert, contains_key-false}

-- Every index is below the capacity of the tree.
abbrev pub InRange : ℕ → Nodes → Type 0
InRange levels leaves = All (λ leaf. leaf.0 < capacity_of levels) leaves

-- No index stands twice.
abbrev pub Distinct : Nodes → Type 0
Distinct [] = Unit
Distinct ((index, v) ∷ leaves) = (contains_key leaves index ≡ false) × Distinct leaves

-- No leaf has an index that is set.
abbrev pub Apart : Nodes → Nodes → Type 0
Apart nodes leaves = All (λ leaf. contains_key nodes (leaf.0) ≡ false) leaves

abbrev pub first_of : Option ℕ → Option ℕ → Option ℕ
first_of none o = o
first_of (some v) o = some v

contains_key-insert :
    (nodes : Nodes) (key value j : ℕ)
    → contains_key (insert key value nodes) j ≡ ((key == j) || contains_key nodes j)
contains_key-insert [] key value j = refl
contains_key-insert ((k, v) ∷ nodes) key value j =
    ground (arith, contains_key-insert nodes key value j)

Apart-insert :
    (leaves nodes : Nodes) (index value : ℕ)
    → Apart (insert index value nodes) leaves
      ↔ ((contains_key leaves index ≡ false) × Apart nodes leaves)
Apart-insert [] nodes index value = ((λ h. (refl, tt)), λ h. tt)
Apart-insert ((k, v) ∷ leaves) nodes index value =
    let step = contains_key-insert nodes index value k in
    let rest = Apart-insert leaves nodes index value in
    (
      (λ h. (ground (arith, h.0, rest.0 h.1), (ground (arith, h.0), (rest.0 h.1).1))),
      λ h. (ground (arith, h.0, h.1.0), rest.1 (ground (arith, h.0), h.1.1)),
    )

Apart-empty : (leaves : Nodes) → Apart [] leaves
Apart-empty [] = tt
Apart-empty (leaf ∷ leaves) = (refl, Apart-empty leaves)

-- What the loop leaves in the row.
pub record Placed (levels : ℕ) (leaves nodes : Nodes) : Type 0 where
  pub nodes' : Nodes
  pub result : place_leaves levels leaves nodes ≡ ok nodes'
  pub found : (j : ℕ) → get nodes' j ≡ first_of (get nodes j) (get leaves j)

place_leaves-Placed :
    (levels : ℕ) (leaves nodes : Nodes)
    → InRange levels leaves
    → Distinct leaves
    → Apart nodes leaves
    → Placed levels leaves nodes
unfolding place_leaves
place_leaves-Placed levels [] nodes inside distinct apart = record {
  nodes' = nodes;
  result = refl;
  found = λ j. ground arith;
}
place_leaves-Placed levels ((index, v) ∷ leaves) nodes inside distinct apart =
    let up =
      place_leaves-Placed levels leaves (insert index v nodes) inside.1 distinct.1
        ((Apart-insert leaves nodes index v).1 (distinct.0, apart.1)) in
    record {
      nodes' = up.nodes';
      result = rw (lt→leb index (capacity_of levels) inside.0, apart.0) up.result;
      found = λ j.
          ground
            (arith, up.found j, get-insert nodes index v j, contains_key-false nodes index apart.0);
    }

pub place_leaves-only :
    (levels : ℕ) (leaves nodes nodes' : Nodes)
    → place_leaves levels leaves nodes ≡ ok nodes'
    → InRange levels leaves × Distinct leaves × Apart nodes leaves
unfolding place_leaves
place_leaves-only levels [] nodes nodes' h = (tt, tt, tt)
place_leaves-only levels ((index, v) ∷ leaves) nodes nodes' h =
    let (small, rest) = passed (leb (capacity_of levels) index) _ _ h in
    let (fresh, placed) = passed (contains_key nodes index) _ _ rest in
    let (inside, distinct, apart) =
      place_leaves-only levels leaves (insert index v nodes) nodes' placed in
    let (unseen, others) = (Apart-insert leaves nodes index v).0 apart in
    ((leb-false→lt (capacity_of levels) index small, inside), (unseen, distinct), (fresh, others))

-- From an empty row.
pub place_leaves_lem :
    (levels : ℕ) (leaves : Nodes)
    → InRange levels leaves
    → Distinct leaves
    → Placed levels leaves []
place_leaves_lem levels leaves inside distinct =
    place_leaves-Placed levels leaves [] inside distinct (Apart-empty leaves)
