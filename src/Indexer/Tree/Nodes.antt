-- ===== src/Indexer/Tree/Nodes.antt =====
-- The sparse rows of the indexer's trees (services/indexer/src/tree.rs), measured against full rows.
use mathlib.Core.Path.{ap₂, subst}
use veil_contract.Prelude.{
  ℕ, zero, suc, ◌+◌, ◌*◌, ◌/◌, ◌≡◌, ◌⊎◌, inl, inr, ◌≢◌, ◌∙◌, sym, ap, refl, List, [], ◌∷◌, some,
  none, true, false, Bool-cases, Option-cases, take, last_or, unwrap_or, arith, ◌==◌, if◌then◌else◌,
  ne→==, ==_iff,
}
use veil_contract.Field.Hash.{hash}
use veil_contract.Tree.{row_above, tree_root}
use veil_contract.Indexer.Tree.{
  Nodes, get, contains_key, insert, parents_loop, parents_of, climb_rows,
}

pub get-insert :
    (nodes : Nodes) (key value j : ℕ)
    → get (insert key value nodes) j ≡ (if key == j then some value else get nodes j)
get-insert [] key value j = refl
get-insert ((k, v) ∷ nodes) key value j = ground (arith, get-insert nodes key value j)

pub get-insert_self :
    (nodes : Nodes) (key value : ℕ) → get (insert key value nodes) key ≡ some value
get-insert_self nodes key value = ground (arith, get-insert nodes key value key)

pub get-insert_ne :
    (nodes : Nodes) (key value j : ℕ) → key ≢ j → get (insert key value nodes) j ≡ get nodes j
get-insert_ne nodes key value j ne = ground (arith, ne→== key j ne, get-insert nodes key value j)

pub contains_key-false :
    (nodes : Nodes) (key : ℕ) → contains_key nodes key ≡ false → get nodes key ≡ none
contains_key-false [] key h = refl
contains_key-false ((k, v) ∷ nodes) key h = ground (arith, contains_key-false nodes key)

pub contains_key-true :
    (nodes : Nodes) (key : ℕ) → contains_key nodes key ≡ true → get nodes key ≢ none
contains_key-true [] key h = absurd cc
contains_key-true ((k, v) ∷ nodes) key h = ground (arith, contains_key-true nodes key)

-- The nodes, with a default value elsewhere, are a row.
abbrev pub HoldsRow : ℕ → Nodes → (ℕ → ℕ) → Type 0
HoldsRow z nodes row = (i : ℕ) → unwrap_or (get nodes i) z ≡ row i

module _ (permutation : ℕ → ℕ → ℕ) where
  -- The zeros of a tree, from the lowest level on.
  abbrev pub chain : ℕ → ℕ → List ℕ
  chain zero z = z ∷ []
  chain (suc rounds) z = z ∷ chain rounds (hash permutation z z)

  -- Every parent so far is the hash of its two children.
  AreParents : (ℕ → ℕ) → Nodes → Type 0
  AreParents row parents =
      (j v : ℕ) → get parents j ≡ some v → v ≡ row_above (hash permutation) row j

  -- One turn of the loop over the keys.
  add_parent : ℕ → Nodes → ℕ → Nodes → Nodes
  add_parent z nodes parent parents =
      if contains_key parents parent
      then parents
      else insert parent
          (hash permutation (unwrap_or (get nodes (parent * 2)) z)
            (unwrap_or (get nodes (parent * 2 + 1)) z))
          parents

  module _ (z : ℕ) (nodes : Nodes) (row : ℕ → ℕ) (held : HoldsRow z nodes row) where
    add_parent_lem :
        (parent : ℕ) (parents : Nodes)
        → ((contains_key parents parent ≡ true) × (add_parent z nodes parent parents ≡ parents))
          ⊎ (add_parent z nodes parent parents
              ≡ insert parent (row_above (hash permutation) row parent) parents)
    unfolding add_parent
    add_parent_lem parent parents = elim (Bool-cases (contains_key parents parent)) [
      | inl found_key ↦ inl (found_key, ground arith)
      | inr absent_key ↦ inr (
          rw absent_key (
            ap (λ p. insert parent p parents)
              (ap₂ (hash permutation) (held (parent * 2) ∙ ap row (omega arith))
                (held (parent * 2 + 1) ∙ ap row (omega arith)))))
    ]

    add_parent-AreParents :
        (parent : ℕ) (parents : Nodes)
        → AreParents row parents
        → AreParents row (add_parent z nodes parent parents)
    unfolding AreParents
    add_parent-AreParents parent parents h j v found = elim (add_parent_lem parent parents) [
      | inl (found_key, same) ↦ h j v (ap (λ m. get m j) (sym same) ∙ found)
      | inr added ↦
          let e = ap (λ m. get m j) (sym added) ∙ found in
          let g = get-insert parents parent (row_above (hash permutation) row parent) j in
          elim (Bool-cases (parent == j)) [
            | inl here ↦ cc (e, g, here, (==_iff parent j).0 here)
            | inr there ↦ h j v (cc (e, g, there))
          ]
    ]

    add_parent-present :
        (parent : ℕ) (parents : Nodes) → get (add_parent z nodes parent parents) parent ≢ none
    add_parent-present parent parents = elim (add_parent_lem parent parents) [
      | inl (found_key, same) ↦ λ gone.
          contains_key-true parents parent found_key (ap (λ m. get m parent) (sym same) ∙ gone)
      | inr added ↦ λ gone.
          let e = ap (λ m. get m parent) (sym added) ∙ gone in
          let g = get-insert_self parents parent (row_above (hash permutation) row parent) in
          absurd cc
    ]

    add_parent-kept :
        (parent : ℕ) (parents : Nodes) (j : ℕ)
        → get parents j ≢ none
        → get (add_parent z nodes parent parents) j ≢ none
    add_parent-kept parent parents j h = elim (add_parent_lem parent parents) [
      | inl (found_key, same) ↦ λ gone. h (ap (λ m. get m j) (sym same) ∙ gone)
      | inr added ↦ λ gone.
          let e = ap (λ m. get m j) (sym added) ∙ gone in
          let g = get-insert parents parent (row_above (hash permutation) row parent) j in
          elim (Bool-cases (parent == j)) [
            | inl here ↦ absurd cc
            | inr there ↦ h (cc (e, g, there))
          ]
    ]

    loop-AreParents :
        (keys parents : Nodes)
        → AreParents row parents
        → AreParents row (parents_loop permutation z nodes keys parents)
    unfolding parents_loop add_parent
    loop-AreParents [] parents h = h
    loop-AreParents ((index, v) ∷ keys) parents h =
        loop-AreParents keys (add_parent z nodes (index / 2) parents)
          (add_parent-AreParents (index / 2) parents h)

    loop-kept :
        (keys parents : Nodes) (j : ℕ)
        → get parents j ≢ none
        → get (parents_loop permutation z nodes keys parents) j ≢ none
    unfolding parents_loop add_parent
    loop-kept [] parents j h = h
    loop-kept ((index, v) ∷ keys) parents j h =
        loop-kept keys (add_parent z nodes (index / 2) parents) j
          (add_parent-kept (index / 2) parents j h)

    loop-present :
        (keys parents : Nodes) (i : ℕ)
        → get keys i ≢ none
        → get (parents_loop permutation z nodes keys parents) (i / 2) ≢ none
    unfolding parents_loop add_parent
    loop-present [] parents i h = absurd (h refl)
    loop-present ((index, v) ∷ keys) parents i h = elim (Bool-cases (index == i)) [
      | inl same ↦ loop-kept keys (add_parent z nodes (index / 2) parents) (i / 2) (
          subst (λ k. get (add_parent z nodes (index / 2) parents) (k / 2) ≢ none)
            ((==_iff index i).0 same) (add_parent-present (index / 2) parents))
      | inr other ↦
          loop-present keys (add_parent z nodes (index / 2) parents) i
            (λ gone. h (cc (other, gone)))
    ]

    -- Below a parent that is missing there is no node.
    zero_below : (i k : ℕ) → k / 2 ≡ i → get (parents_of permutation z nodes) i ≡ none → row k ≡ z
    unfolding parents_of
    zero_below i k half missing = elim (Option-cases (get nodes k)) [
      | inl gone ↦ sym (held k) ∙ ap (λ o. unwrap_or o z) gone
      | inr (v, found) ↦ absurd (
          loop-present nodes [] k (λ gone. cc)
            (ap (get (parents_of permutation z nodes)) half ∙ missing))
    ]

    pub parents_of-HoldsRow :
        HoldsRow
          (hash permutation z z)
          (parents_of permutation z nodes)
          (row_above (hash permutation) row)
    unfolding parents_of AreParents
    parents_of-HoldsRow i = elim (Option-cases (get (parents_of permutation z nodes) i)) [
      | inl missing ↦
          ap (λ o. unwrap_or o (hash permutation z z)) missing
          ∙ sym (
              ap₂ (hash permutation) (zero_below i (2 * i) (omega arith) missing)
                (zero_below i (2 * i + 1) (omega arith) missing))
      | inr (v, found) ↦
          ap (λ o. unwrap_or o (hash permutation z z)) found
          ∙ loop-AreParents nodes [] (λ j w absent. absurd cc) i v found
    ]

  -- A whole climb from the lowest row: the node at the top, or the zero of the last level.
  pub climb_rows_lem :
      (rounds z d : ℕ) (nodes : Nodes) (row : ℕ → ℕ)
      → HoldsRow z nodes row
      → unwrap_or
          (get (climb_rows permutation (take rounds (chain rounds z)) nodes) 0)
          (last_or d (chain rounds z))
        ≡ tree_root (hash permutation) rounds row
  unfolding climb_rows tree_root
  climb_rows_lem zero z d nodes row held = held 0
  climb_rows_lem (suc rounds) z d nodes row held =
      climb_rows_lem rounds (hash permutation z z) z (parents_of permutation z nodes) _
        (parents_of-HoldsRow z nodes row held)
