-- ===== src/Fixture/Trees.antt =====
-- The fixture's trees are the contracts' (`merkle_root` and `merkle_proof` of
-- tools/policy-fixture/src/lib.rs).
use native.Mathlib.Nat.{pow-suc, pow-le-pow_right}
use mathlib.Core.Path.{ap₂}
use veil_contract.Prelude.{
  ℕ, zero, suc, ◌+◌, ◌*◌, ◌/◌, ◌%◌, ◌^◌, ◌≤◌, ◌<◌, inl, inr, ◌≡◌, ◌∙◌, sym, ap, refl, true, false,
  ==_iff, or_trap, ◌==◌, List, [], ◌∷◌, ◌++◌, some, ok, length, get_elem?, get_or, arith, ltb, leb,
  if◌then◌else◌,
}
use veil_contract.Field.Hash.{hash}
use veil_contract.Tree.{row_above, tree_root}
use mathlib.Core.List.{append_assoc, append-nil}
use veil_contract.Tree.Climb.{parity}
use veil_contract.Indexer.Tree.Paths.{siblings_over, length-siblings_over, fold_siblings_lem}
use veil_contract.Fixture.{
  proof_loop, merkle_proof, ilog2, is_power_of_two, next_row, reduce, merkle_root, sibling_of,
  set_bit,
}
use veil_contract.Indexer.Tree.{flip_low_bit, computed_root}
use veil_contract.Fixture.Bits.{
  ilog2-pow, below_pow, get_elem?-get_or, sibling_of_lem, set_bit_lem, flip_low_bit_lt, bits_total,
  bits_lt,
}

module _ (permutation : ℕ → ℕ → ℕ) where
  -- A row has half as many nodes as the one below.
  length-next_row :
      (n : ℕ) (nodes : List ℕ) → length nodes ≡ 2 * n → length (next_row permutation nodes) ≡ n
  unfolding next_row
  length-next_row zero [] h = refl
  length-next_row (suc n) [] h = absurd (omega arith)
  length-next_row n (a ∷ []) h = absurd (omega arith)
  length-next_row zero (a ∷ b ∷ rest) h = absurd (omega arith)
  length-next_row (suc n) (a ∷ b ∷ rest) h = ap suc (length-next_row n rest (omega arith))

  get_or-next_row :
      (i d : ℕ) (nodes : List ℕ)
      → 2 * i + 1 < length nodes
      → get_or (next_row permutation nodes) i d
        ≡ row_above (hash permutation) (λ j. get_or nodes j d) i
  unfolding next_row
  get_or-next_row i d [] h = absurd (omega arith)
  get_or-next_row i d (a ∷ []) h = absurd (omega arith)
  get_or-next_row zero d (a ∷ b ∷ rest) h = refl
  get_or-next_row (suc i) d (a ∷ b ∷ rest) h =
      let left : 2 * suc i ≡ suc (suc (2 * i)) = omega arith in
      let right : 2 * suc i + 1 ≡ suc (suc (2 * i + 1)) = omega arith in
      get_or-next_row i d rest (omega arith)
      ∙ ap₂ (λ l r. hash permutation (get_or (a ∷ b ∷ rest) l d) (get_or (a ∷ b ∷ rest) r d))
          (sym left) (sym right)

  tree_root-same :
      (levels : ℕ) (row row' : ℕ → ℕ)
      → ((i : ℕ) → i < 2 ^ levels → row i ≡ row' i)
      → tree_root (hash permutation) levels row ≡ tree_root (hash permutation) levels row'
  unfolding tree_root
  tree_root-same zero row row' same = same 0 (omega arith)
  tree_root-same (suc levels) row row' same =
      tree_root-same levels (row_above (hash permutation) row) (row_above (hash permutation) row')
        (λ i lt.
          ap₂ (hash permutation) (same (2 * i) (omega (arith, pow-suc 2 levels)))
            (same (2 * i + 1) (omega (arith, pow-suc 2 levels))))

  -- The values of a list, with zeros after them.
  abbrev row_of : List ℕ → ℕ → ℕ
  row_of nodes i = get_or nodes i 0

  reduce_lem :
      (levels rounds : ℕ) (nodes : List ℕ)
      → levels ≤ rounds
      → length nodes ≡ 2 ^ levels
      → get_elem? (reduce permutation rounds nodes) 0
        ≡ some (tree_root (hash permutation) levels (row_of nodes))
  unfolding reduce tree_root
  reduce_lem zero zero [] h one = absurd (omega arith)
  reduce_lem zero zero (a ∷ nodes) h one = refl
  reduce_lem zero (suc rounds) [] h one = absurd (omega arith)
  reduce_lem zero (suc rounds) (a ∷ nodes) h one = rw one refl
  reduce_lem (suc levels) zero nodes h size = absurd (omega arith)
  reduce_lem (suc levels) (suc rounds) nodes h size =
      let large : 2 ≤ 2 ^ suc levels =
        pow-le-pow_right {n = 2} (omega arith) {i = 1} {j = suc levels} (omega arith) in
      let long : ltb 1 (length nodes) ≡ true = ground (arith, size, large) in
      rw long (
        reduce_lem levels rounds (next_row permutation nodes) (omega arith)
          (length-next_row (2 ^ levels) nodes (omega (arith, size, pow-suc 2 levels)))
        ∙ ap some (
            tree_root-same levels _ _
              (λ i lt. get_or-next_row i 0 nodes (omega (arith, size, pow-suc 2 levels)))))

  merkle_root_lem :
      (levels : ℕ) (leaves : List ℕ)
      → levels ≤ 64
      → length leaves ≡ 2 ^ levels
      → merkle_root permutation leaves ≡ ok (tree_root (hash permutation) levels (row_of leaves))
  unfolding merkle_root is_power_of_two
  merkle_root_lem levels leaves shallow size =
      let large : 1 ≤ 2 ^ levels =
        pow-le-pow_right {n = 2} (omega arith) {i = 0} {j = levels} (omega arith) in
      let filled : (length leaves == 0) ≡ false = ground (arith, size, large) in
      let power : (2 ^ ilog2 64 (length leaves) == length leaves) ≡ true =
        rw (size, ilog2-pow 64 levels shallow) ((==_iff (2 ^ levels) (2 ^ levels)).1 refl) in
      let enough : levels ≤ length leaves = rw size (below_pow levels) in
      rw (filled, power) (ap or_trap (reduce_lem levels (length leaves) leaves enough size))

  proof_step :
      (rounds level index : ℕ) (nodes elements : List ℕ) (bits bits' sibling : ℕ)
      → sibling_of index ≡ ok (flip_low_bit index)
      → get_elem? nodes (flip_low_bit index) ≡ some sibling
      → (if index % 2 == 1 then set_bit level bits else ok bits) ≡ ok bits'
      → proof_loop permutation (suc rounds) level index nodes elements bits
        ≡ proof_loop permutation rounds
            (level + 1)
            (index / 2)
            (next_row permutation nodes)
            (elements ++ (sibling ∷ []))
            bits'
  unfolding proof_loop
  proof_step rounds level index nodes elements bits bits' sibling at found counted =
      rw (at, found, counted) refl

  marked :
      (level index bits : ℕ)
      → level < 64
      → bits < 2 ^ level
      → (if index % 2 == 1 then set_bit level bits else ok bits)
        ≡ ok (bits + 2 ^ level * (index % 2))
  marked level index bits shallow small = elim (parity index) [
    | inl odd ↦
        rw odd (set_bit_lem level bits shallow small ∙ ap (λ n. ok (bits + n)) (omega arith))
    | inr even ↦ rw even (ap ok (omega arith))
  ]

  proof_loop_lem :
      (rounds level index : ℕ) (nodes elements : List ℕ) (bits : ℕ) (row : ℕ → ℕ)
      → level + rounds < 64
      → length nodes ≡ 2 ^ rounds
      → ((i : ℕ) → i < 2 ^ rounds → get_or nodes i 0 ≡ row i)
      → index < 2 ^ rounds
      → bits < 2 ^ level
      → proof_loop permutation rounds level index nodes elements bits
        ≡ ok (elements ++ siblings_over permutation rounds row index, bits + 2 ^ level * index)
  unfolding proof_loop
  proof_loop_lem zero level index nodes elements bits row shallow size same inside small =
      let only_zero : index ≡ 0 = omega arith in
      ap₂ (λ (e : List ℕ) (b : ℕ). ok (e, b)) (sym (append-nil elements))
        (rw only_zero (omega arith))
  proof_loop_lem (suc rounds) level index nodes elements bits row shallow size same inside small =
      let flipped : flip_low_bit index < 2 ^ suc rounds =
        rw (pow-suc 2 rounds)
          (flip_low_bit_lt index (2 ^ rounds) (omega (arith, pow-suc 2 rounds))) in
      let bounded : 2 ^ suc rounds ≤ 2 ^ 63 =
        pow-le-pow_right {n = 2} (omega arith) {i = suc rounds} {j = 63} (omega arith) in
      proof_step rounds level index nodes elements bits (bits + 2 ^ level * (index % 2))
        (row (flip_low_bit index)) (sibling_of_lem index (omega (arith, bounded)))
        (get_elem?-get_or nodes (flip_low_bit index) (rw size flipped)
          ∙ ap some (same (flip_low_bit index) flipped))
        (marked level index bits (omega arith) small)
      ∙ proof_loop_lem rounds (level + 1) (index / 2) (next_row permutation nodes) _ _
          (row_above (hash permutation) row) (omega arith)
          (length-next_row (2 ^ rounds) nodes (omega (arith, size, pow-suc 2 rounds)))
          (λ i lt.
            get_or-next_row i 0 nodes (omega (arith, size, pow-suc 2 rounds))
            ∙ ap₂ (hash permutation) (same (2 * i) (omega (arith, pow-suc 2 rounds)))
                (same (2 * i + 1) (omega (arith, pow-suc 2 rounds))))
          (omega (arith, pow-suc 2 rounds)) (bits_lt level index bits small)
      ∙ ap₂ (λ (e : List ℕ) (b : ℕ). ok (e, b))
          (append_assoc elements (row (flip_low_bit index) ∷ []) _) (bits_total level index bits)

  proof_run :
      (levels index : ℕ) (leaves : List ℕ)
      → levels < 64
      → length leaves ≡ 2 ^ levels
      → index < 2 ^ levels
      → merkle_proof permutation leaves index
        ≡ ok (siblings_over permutation levels (row_of leaves) index, index, levels)
  unfolding merkle_proof is_power_of_two
  proof_run levels index leaves shallow size inside =
      let filled : (length leaves == 0) ≡ false = ground (arith, size, inside) in
      let depth : ilog2 64 (length leaves) ≡ levels = rw size (ilog2-pow 64 levels (omega arith)) in
      let power : (2 ^ levels == length leaves) ≡ true =
        (==_iff (2 ^ levels) (length leaves)).1 (sym size) in
      let below : leb (length leaves) index ≡ false = ground (arith, size, inside) in
      let run =
        proof_loop_lem levels 0 index leaves [] 0 (row_of leaves) (omega arith) size (λ i lt. refl)
          inside (omega arith) in
      rw (depth, filled, power, below, run)
        (ap (λ n. ok (siblings_over permutation levels (row_of leaves) index, n, levels))
          (omega arith))

  -- For `2 ^ levels` leaves, at most 2 ^ 63, and the index of one of them, `merkle_root` returns the
  -- root of the contracts' tree over the leaves, and `merkle_proof` the siblings of a path from that
  -- leaf, as many as there are levels, with the index as its bits; the indexer's `computed_root`
  -- leads along that path to the same root.
  pub merkle_proof_lem :
      (levels index : ℕ) (leaves : List ℕ)
      → levels < 64
      → length leaves ≡ 2 ^ levels
      → index < 2 ^ levels
      → (elements : List ℕ) × (merkle_proof permutation leaves index ≡ ok (elements, index, levels))
        × (length elements ≡ levels)
        × (merkle_root permutation leaves
            ≡ ok (tree_root (hash permutation) levels (λ i. get_or leaves i 0)))
        × (computed_root permutation (record {
          index = index;
          leaf = get_or leaves index 0;
          siblings = elements;
          root = tree_root (hash permutation) levels (λ i. get_or leaves i 0);
        })
            ≡ tree_root (hash permutation) levels (λ i. get_or leaves i 0))
  unfolding computed_root
  merkle_proof_lem levels index leaves shallow size inside = (
    siblings_over permutation levels (row_of leaves) index,
    proof_run levels index leaves shallow size inside,
    length-siblings_over permutation levels index (row_of leaves),
    merkle_root_lem levels leaves (omega arith) size,
    fold_siblings_lem permutation levels index (row_of leaves) inside,
  )
