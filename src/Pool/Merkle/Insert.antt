-- ===== src/Pool/Merkle/Insert.antt =====
-- `insert_two_leaves` of merkle_with_history.rs against the tree over a sequence of insertions.
use mathlib.Core.Path.{ap₂}
use native.Mathlib.Nat.{pow-suc, pow-le-pow_right, le_trans}
use veil_contract.Prelude.{
  ℕ, zero, suc, ◌+◌, ◌*◌, ◌-◌, ◌/◌, ◌%◌, ◌^◌, ◌≤◌, ◌<◌, ◌≡◌, ◌∙◌, sym, ap, refl, some, List, [],
  ◌∷◌, ◌++◌, length, length-append, get_or, get_or-append, get_or-append_right, get_or-beyond, ok,
  arith, update, NatMap,
}
use veil_contract.Field.{bn256_modulus, poseidon2_compress}
use veil_contract.Field.Hash.{hash, PermutesField, hash_lt, poseidon2_compress_lem}
use veil_contract.Field.Chain.{empty_leaf, empty_leaf_lt, zero_at}
use veil_contract.Tree.{row_above, tree_root, climb}
use veil_contract.Tree.Climb.{FilledFor, ZeroesFor, climb-Climbed, Climbed}
use veil_contract.Pool.Merkle.{Store, MerkleError, not_initialized, insert_two_leaves}
use veil_contract.Pool.Merkle.Roots.{RootRing, push-RootRing}

-- The leaves that a sequence of insertions, the latest first, has put into the tree.
abbrev pub leaves_of : List (ℕ × ℕ) → List ℕ
leaves_of [] = []
leaves_of ((left, right) ∷ pairs) = leaves_of pairs ++ (left ∷ right ∷ [])

pub length-leaves_of : (pairs : List (ℕ × ℕ)) → length (leaves_of pairs) ≡ 2 * length pairs
length-leaves_of [] = omega arith
length-leaves_of ((left, right) ∷ pairs) =
    omega (arith, length-append (leaves_of pairs) (left ∷ right ∷ []), length-leaves_of pairs)

-- The bottom row of the tree: the leaves, then empty leaves.
abbrev pub leaf_row : List (ℕ × ℕ) → ℕ → ℕ
leaf_row pairs i = get_or (leaves_of pairs) i empty_leaf

leaf_row-old :
    (left right : ℕ) (pairs : List (ℕ × ℕ)) (i : ℕ)
    → i < 2 * length pairs
    → leaf_row ((left, right) ∷ pairs) i ≡ leaf_row pairs i
leaf_row-old left right pairs i lt =
    get_or-append (leaves_of pairs) (left ∷ right ∷ []) i empty_leaf
      (omega (arith, length-leaves_of pairs))

leaf_row-left :
    (left right : ℕ) (pairs : List (ℕ × ℕ))
    → leaf_row ((left, right) ∷ pairs) (2 * length pairs) ≡ left
leaf_row-left left right pairs =
    get_or-append_right (leaves_of pairs) (left ∷ right ∷ []) (2 * length pairs) 0 empty_leaf
      (omega (arith, length-leaves_of pairs))

leaf_row-right :
    (left right : ℕ) (pairs : List (ℕ × ℕ))
    → leaf_row ((left, right) ∷ pairs) (2 * length pairs + 1) ≡ right
leaf_row-right left right pairs =
    get_or-append_right (leaves_of pairs) (left ∷ right ∷ []) (2 * length pairs + 1) 1 empty_leaf
      (omega (arith, length-leaves_of pairs))

leaf_row-empty :
    (pairs : List (ℕ × ℕ)) (i : ℕ) → 2 * length pairs ≤ i → leaf_row pairs i ≡ empty_leaf
leaf_row-empty pairs i le =
    get_or-beyond (leaves_of pairs) i empty_leaf (omega (arith, length-leaves_of pairs))

-- Both leaves of every pair are field elements.
abbrev pub InField : List (ℕ × ℕ) → Type 0
InField [] = Unit {0}
InField ((left, right) ∷ pairs) = (left < bn256_modulus) × (right < bn256_modulus) × InField pairs

leaves_lt :
    (leaves : List ℕ)
    → ((i : ℕ) → get_or leaves i empty_leaf < bn256_modulus)
    → (left right i : ℕ) → left < bn256_modulus
    → right < bn256_modulus
    → get_or (leaves ++ (left ∷ right ∷ [])) i empty_leaf < bn256_modulus
leaves_lt [] h left right zero hl hr = hl
leaves_lt [] h left right (suc zero) hl hr = hr
leaves_lt [] h left right (suc (suc i)) hl hr = empty_leaf_lt
leaves_lt (x ∷ xs) h left right zero hl hr = h 0
leaves_lt (x ∷ xs) h left right (suc i) hl hr = leaves_lt xs (λ j. h (suc j)) left right i hl hr

pub leaf_row_lt :
    (pairs : List (ℕ × ℕ)) → InField pairs → (i : ℕ) → leaf_row pairs i < bn256_modulus
leaf_row_lt [] h i = empty_leaf_lt
leaf_row_lt ((left, right) ∷ pairs) h i =
    leaves_lt (leaves_of pairs) (leaf_row_lt pairs h.2) left right i h.0 h.1

module _ (permutation : ℕ → ℕ → ℕ) where
  -- The root over the leaves of a sequence of insertions, every node hashed.
  abbrev pub root_of : ℕ → List (ℕ × ℕ) → ℕ
  root_of levels pairs = tree_root (hash permutation) levels (leaf_row pairs)

  -- The roots after each insertion, the latest first, down to that of the empty tree.
  abbrev pub history_of : ℕ → List (ℕ × ℕ) → List ℕ
  history_of levels [] = root_of levels [] ∷ []
  history_of levels (pair ∷ pairs) = root_of levels (pair ∷ pairs) ∷ history_of levels pairs

  -- The store of a tree of `suc depth` levels after a sequence of insertions.
  pub record IsTree (depth : ℕ) (pairs : List (ℕ × ℕ)) (s : Store) : Type 0 where
    pub shallow : depth < 32
    pub has_levels : s.levels ≡ some (suc depth)
    pub has_next : s.next_index ≡ some (2 * length pairs)
    pub fits : 2 * length pairs ≤ 2 ^ suc depth
    pub in_field : InField pairs
    pub zero_hashes : ZeroesFor permutation depth 1 (zero_at permutation 1) s.zeroes
    pub filled :
        FilledFor permutation depth 1
          (length pairs)
          (row_above (hash permutation) (leaf_row pairs))
          s.filled_subtree
    pub ring : RootRing (history_of (suc depth) pairs) s

-- A run of `insert_two_leaves` past every test, over the values that it reads.
insert_run :
    (permutation : ℕ → ℕ → ℕ) (depth left right n r parent top : ℕ) (filled : NatMap ℕ) (s : Store)
    → depth < 32
    → s.levels ≡ some (suc depth)
    → s.next_index ≡ some n
    → s.current_root_index ≡ some r
    → n % 2 ≡ 0
    → n + 2 ≤ 2 ^ suc depth
    → n + 2 ≤ 2 ^ 32
    → r < 90
    → poseidon2_compress {E = MerkleError} permutation left right ≡ ok parent
    → climb permutation not_initialized s.zeroes depth 1 (n / 2) parent s.filled_subtree
      ≡ ok (top, filled)
    → insert_two_leaves permutation left right s
      ≡ ok (
        (n, n + 1),
        record s {
          filled_subtree = filled;
          root = update s.root ((r + 1) % 90) top;
          current_root_index = some ((r + 1) % 90);
          next_index = some (n + 2);
        },
      )
unfolding insert_two_leaves
insert_run permutation depth left right n r parent top filled s shallow hl hn hr even room small
      ring hashed climbed =
    let e : suc depth - 1 ≡ depth = omega arith in ground arith

module _ (permutation : ℕ → ℕ → ℕ) (closed : PermutesField permutation) where
  -- The climb of an insertion, from the parent of the two leaves.
  climb_insert :
      (depth left right : ℕ) (pairs : List (ℕ × ℕ)) (s : Store)
      → IsTree permutation depth pairs s
      → InField ((left, right) ∷ pairs)
      → 2 * length pairs + 2 ≤ 2 ^ suc depth
      → Climbed permutation not_initialized closed s.zeroes depth 1
          (length pairs)
          (row_above (hash permutation) (leaf_row ((left, right) ∷ pairs)))
          s.filled_subtree
  climb_insert depth left right pairs s tree field room =
      climb-Climbed permutation not_initialized closed s.zeroes depth 1 (length pairs)
        (zero_at permutation 1) (row_above (hash permutation) (leaf_row pairs))
        (row_above (hash permutation) (leaf_row ((left, right) ∷ pairs))) s.filled_subtree
        (λ i. hash_lt permutation _ _)
        (λ i lt. cc (
          leaf_row-old left right pairs (2 * i) (omega arith),
          leaf_row-old left right pairs (2 * i + 1) (omega arith),
        ))
        (λ i lt. cc (
          leaf_row-empty ((left, right) ∷ pairs) (2 * i) (omega arith),
          leaf_row-empty ((left, right) ∷ pairs) (2 * i + 1) (omega arith),
        ))
        (omega (arith, pow-suc 2 depth)) tree.filled tree.zero_hashes

  -- An insertion of two field elements, with room left, into a tree that satisfies the invariant
  -- returns the two next indices and appends the leaves: the invariant holds for the longer tree,
  -- so the latest root is that of the whole tree over all leaves.
  pub insert_two_leaves_lem :
      (depth left right : ℕ) (pairs : List (ℕ × ℕ)) (s : Store)
      → IsTree permutation depth pairs s
      → left < bn256_modulus
      → right < bn256_modulus
      → 2 * length pairs + 2 ≤ 2 ^ suc depth
      → (s' : Store) × (insert_two_leaves permutation left right s
          ≡ ok ((2 * length pairs, 2 * length pairs + 1), s'))
        × IsTree permutation depth ((left, right) ∷ pairs) s'
  unfolding tree_root
  insert_two_leaves_lem depth left right pairs s tree hl hr room = (
    s',
    insert_run permutation depth left right (2 * length pairs) tree.ring.index
        (hash permutation left right) _ c.filled' s tree.shallow tree.has_levels tree.has_next
        tree.ring.at (omega arith) room
        (le_trans room
          (pow-le-pow_right {n = 2} (omega arith) {i = suc depth} {j = 32} tree.shallow))
        tree.ring.in_range (poseidon2_compress_lem permutation closed left right hl hr) climbed,
    record {
      shallow = tree.shallow;
      has_levels = tree.has_levels;
      has_next = ap some (omega arith);
      fits = omega arith;
      in_field = (hl, hr, tree.in_field);
      zero_hashes = tree.zero_hashes;
      filled = rw next c.complete;
      ring =
          push-RootRing (history_of permutation (suc depth) pairs) s s'
            (root_of permutation (suc depth) ((left, right) ∷ pairs)) tree.ring refl refl;
    },
  )
    where
      c :
          Climbed permutation not_initialized closed s.zeroes depth 1
            (length pairs)
            (row_above (hash permutation) (leaf_row ((left, right) ∷ pairs)))
            s.filled_subtree
      c = climb_insert depth left right pairs s tree (hl, hr, tree.in_field) room

      index : ℕ
      index = (tree.ring.index + 1) % 90

      s' : Store
      s' = record s {
        filled_subtree = c.filled';
        root = update s.root index (root_of permutation (suc depth) ((left, right) ∷ pairs));
        current_root_index = some index;
        next_index = some (2 * length pairs + 2);
      }

      climbed :
          climb permutation not_initialized s.zeroes depth 1
            (2 * length pairs / 2)
            (hash permutation left right)
            s.filled_subtree
          ≡ ok (root_of permutation (suc depth) ((left, right) ∷ pairs), c.filled')
      climbed =
          ap₂ (λ i node. climb permutation not_initialized s.zeroes depth 1 i node s.filled_subtree)
            (omega arith)
            (ap₂ (hash permutation) (sym (leaf_row-left left right pairs))
              (sym (leaf_row-right left right pairs)))
          ∙ c.result

      next : suc (length pairs) ≡ length pairs + 1
      next = omega arith
