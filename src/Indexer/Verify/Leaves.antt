-- ===== src/Indexer/Verify/Leaves.antt =====
-- Which leaves the rows of the commitments give (the loop of `check_pool` of
-- services/indexer/src/verify.rs).
use Prim.Native.String.{String}
use text.Mathlib.Text.{◌==◌ as ◌is◌}
use text.Mathlib.TextEquality.{eq_iff}
use mathlib.Core.Path.{subst}
use veil_contract.Prelude.{
  ℕ, ◌≡◌, ◌↔◌, ◌⊎◌, inl, inr, ◌∙◌, sym, ap, refl, Bool, true, false, List, [], ◌∷◌, ◌++◌, ok,
  >>=-eq-ok, ok-injective, if◌then◌else◌,
}
use veil_contract.Prelude.Int.{ℤ, pos, negsuc}
use veil_contract.Field.{from_be_bytes}
use veil_contract.Indexer.Tree.{Nodes, from_u256}
use veil_contract.Indexer.Verify.{
  CommitmentRow, lift_tree, u256, index, pool_leaves, saturating_succ,
}
use veil_contract.Indexer.Verify.Replayed.{lift_tree-ok, u256-ok, from_u256-ok}

-- A leaf stands at an index.
abbrev pub HasLeaf : Nodes → ℕ → ℕ → Type 0
HasLeaf [] i leaf = ⊥
HasLeaf ((j, l) ∷ nodes) i leaf = ((j ≡ i) × (l ≡ leaf)) ⊎ HasLeaf nodes i leaf

-- The commitment of a row, at its index.
abbrev pub IsCommitment : CommitmentRow → ℕ → ℕ → Type 0
IsCommitment row i leaf = (row.leaf_index ≡ pos i) × (from_be_bytes row.commitment ≡ leaf)

-- The zero beside a commitment of the closed deposit path.
abbrev pub IsFilling : CommitmentRow → ℕ → ℕ → Type 0
IsFilling row i leaf =
    (row.origin ≡ "legacy_deposit")
    × ((j : ℕ) × (row.leaf_index ≡ pos j) × (saturating_succ j ≡ i) × (0 ≡ leaf))

abbrev pub IsFromRows : List CommitmentRow → ℕ → ℕ → Type 0
IsFromRows [] i leaf = ⊥
IsFromRows (row ∷ rows) i leaf =
    (IsCommitment row i leaf ⊎ IsFilling row i leaf) ⊎ IsFromRows rows i leaf

index-ok : (z : ℤ) (what : String) (k : ℕ) → index z what ≡ ok k → z ≡ pos k
unfolding index
index-ok (pos n) what k h = cc
index-ok (negsuc n) what k h = absurd cc

pos_same : (a b : ℕ) → pos a ≡ pos b → a ≡ b
pos_same a b h = cc

HasLeaf-append :
    (nodes : Nodes) (k l i leaf : ℕ)
    → HasLeaf (nodes ++ ((k, l) ∷ [])) i leaf ↔ (HasLeaf nodes i leaf ⊎ ((k ≡ i) × (l ≡ leaf)))
HasLeaf-append [] k l i leaf = (
  λ h. elim h [ inl e ↦ inr e | inr none ↦ absurd none ],
  λ h. elim h [ inl none ↦ absurd none | inr e ↦ inl e ],
)
HasLeaf-append ((j, m) ∷ nodes) k l i leaf =
    let (to, back) = HasLeaf-append nodes k l i leaf in
    (
      λ h. elim h [
        | inl e ↦ inl (inl e)
        | inr later ↦ elim (to later) [ inl old ↦ inl (inr old) | inr new ↦ inr new ]
      ],
      λ h. elim h [
        | inl (inl e) ↦ inl e
        | inl (inr old) ↦ inr (back (inl old))
        | inr new ↦ inr (back (inr new))
      ],
    )

-- What one turn of the loop adds.
abbrev added : Bool → ℕ → ℕ → Nodes → Nodes
added legacy k l nodes =
    if legacy
    then (nodes ++ ((k, l) ∷ [])) ++ ((saturating_succ k, 0) ∷ [])
    else nodes ++ ((k, l) ∷ [])

module _ (row : CommitmentRow) (k l : ℕ) (at : row.leaf_index ≡ pos k)
    (read : from_be_bytes row.commitment ≡ l) where
  gives_IsCommitment : (i leaf : ℕ) → (k ≡ i) × (l ≡ leaf) → IsCommitment row i leaf
  gives_IsCommitment i leaf (same_index, same_leaf) = (at ∙ ap pos same_index, read ∙ same_leaf)

  from_IsCommitment : (i leaf : ℕ) → IsCommitment row i leaf → (k ≡ i) × (l ≡ leaf)
  from_IsCommitment i leaf (same_index, same_leaf) =
      (pos_same k i (sym at ∙ same_index), sym read ∙ same_leaf)

  from_IsFilling : (i leaf : ℕ) → IsFilling row i leaf → (saturating_succ k ≡ i) × (0 ≡ leaf)
  from_IsFilling i leaf (legacy, (j, same_index, next, zero_leaf)) =
      (subst (λ n. saturating_succ n ≡ i) (pos_same j k (sym same_index ∙ at)) next, zero_leaf)

  added-HasLeaf :
      (legacy : Bool) (nodes : Nodes) (i leaf : ℕ)
      → (row.origin is "legacy_deposit") ≡ legacy
      → HasLeaf (added legacy k l nodes) i leaf
        ↔ (HasLeaf nodes i leaf ⊎ (IsCommitment row i leaf ⊎ IsFilling row i leaf))
  added-HasLeaf true nodes i leaf origin =
      let (to, back) = HasLeaf-append nodes k l i leaf in
      let (to', back') = HasLeaf-append (nodes ++ ((k, l) ∷ [])) (saturating_succ k) 0 i leaf in
      let legacy = (eq_iff row.origin "legacy_deposit").0 origin in
      (
        λ h. elim (to' h) [
          | inl first ↦ elim (to first) [
            | inl old ↦ inl old
            | inr new ↦ inr (inl (gives_IsCommitment i leaf new))
          ]
          | inr (next, zero_leaf) ↦ inr (inr (legacy, (k, at, next, zero_leaf)))
        ],
        λ h. elim h [
          | inl old ↦ back' (inl (back (inl old)))
          | inr (inl new) ↦ back' (inl (back (inr (from_IsCommitment i leaf new))))
          | inr (inr filling) ↦ back' (inr (from_IsFilling i leaf filling))
        ],
      )
  added-HasLeaf false nodes i leaf origin =
      let (to, back) = HasLeaf-append nodes k l i leaf in
      (
        λ h. elim (to h) [
          | inl old ↦ inl old
          | inr new ↦ inr (inl (gives_IsCommitment i leaf new))
        ],
        λ h. elim h [
          | inl old ↦ back (inl old)
          | inr (inl new) ↦ back (inr (from_IsCommitment i leaf new))
          | inr (inr (legacy, filling)) ↦
              absurd (let yes = (eq_iff row.origin "legacy_deposit").1 legacy in cc)
        ],
      )

pool_leaves-from :
    (rows : List CommitmentRow) (nodes leaves : Nodes)
    → pool_leaves rows nodes ≡ ok leaves
    → (i leaf : ℕ) → HasLeaf leaves i leaf ↔ (HasLeaf nodes i leaf ⊎ IsFromRows rows i leaf)
unfolding pool_leaves
pool_leaves-from [] nodes leaves h i leaf =
    subst (λ x. HasLeaf x i leaf ↔ (HasLeaf nodes i leaf ⊎ ⊥)) (ok-injective h)
      ((λ old. inl old), λ o. elim o [ inl old ↦ old | inr none ↦ absurd none ])
pool_leaves-from (row ∷ rows) nodes leaves h i leaf =
    let (k, has_index, h1) = >>=-eq-ok (index row.leaf_index "leaf index") _ h in
    let (value, has_value, h2) = >>=-eq-ok (u256 row.commitment "commitment") _ h1 in
    let (l, has_leaf, h3) = >>=-eq-ok (lift_tree (from_u256 value)) _ h2 in
    let read =
      u256-ok row.commitment _ value has_value ∙ from_u256-ok value l (lift_tree-ok _ _ has_leaf) in
    let (to, back) =
      added-HasLeaf row k l (index-ok row.leaf_index _ k has_index) read
        (row.origin is "legacy_deposit") nodes i leaf refl in
    let (to', back') =
      pool_leaves-from rows (added (row.origin is "legacy_deposit") k l nodes) leaves h3 i leaf in
    (
      λ here. elim (to' here) [
        | inl now ↦ elim (to now) [ inl old ↦ inl old | inr new ↦ inr (inl new) ]
        | inr later ↦ inr (inr later)
      ],
      λ o. elim o [
        | inl old ↦ back' (inl (back (inl old)))
        | inr (inl new) ↦ back' (inl (back (inr new)))
        | inr (inr later) ↦ back' (inr later)
      ],
    )

-- The leaves that the rows give are each row's commitment at its index and, beside one of the closed
-- deposit path, a zero at the next index.
pub pool_leaves_lem :
    (rows : List CommitmentRow) (leaves : Nodes)
    → pool_leaves rows [] ≡ ok leaves
    → (i leaf : ℕ) → HasLeaf leaves i leaf ↔ IsFromRows rows i leaf
pool_leaves_lem rows leaves h i leaf =
    let (to, back) = pool_leaves-from rows [] leaves h i leaf in
    (λ here. elim (to here) [ inl none ↦ absurd none | inr from ↦ from ], λ from. back (inr from))
