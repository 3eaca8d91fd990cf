-- ===== src/Asp/Insert.antt =====
-- `insert_leaf` (contracts/asp-membership/src/contract.rs) against the tree over a list of members.
use native.Mathlib.Nat.{pow-le-pow_right, le_trans}
use veil_contract.Prelude.{
  ℕ, zero, suc, ◌+◌, ◌^◌, ◌≤◌, ◌<◌, ◌≡◌, ◌∙◌, sym, ap, refl, true, false, some, List, [], ◌∷◌, ◌++◌,
  length, length-append, get_or, get_or-append, get_or-append_right, get_or-beyond, NatMap, ok, err,
  arith, All,
}
use veil_contract.Field.{bn256_modulus}
use veil_contract.Field.Hash.{hash, PermutesField}
use veil_contract.Field.Chain.{empty_leaf, empty_leaf_lt}
use veil_contract.Tree.{tree_root, climb}
use veil_contract.Tree.Climb.{FilledFor, ZeroesFor, climb-Climbed, Climbed}
use veil_contract.Asp.{
  Storage, World, Host, not_initialized, merkle_tree_full, leaf_added, publish, insert_leaf,
  ensure_field_element, get_operator_maintained, get_admin_insert_only,
}

-- The bottom row: the members in order of insertion, then empty leaves.
abbrev pub member_row : List ℕ → ℕ → ℕ
member_row members i = get_or members i empty_leaf

abbrev pub AllInField : List ℕ → Type 0
AllInField members = All (λ m. m < bn256_modulus) members

member_row_lt :
    (members : List ℕ) → AllInField members → (i : ℕ) → member_row members i < bn256_modulus
member_row_lt [] h i = empty_leaf_lt
member_row_lt (m ∷ ms) h zero = h.0
member_row_lt (m ∷ ms) h (suc i) = member_row_lt ms h.1 i

All-snoc :
    (members : List ℕ) (leaf : ℕ)
    → AllInField members
    → leaf < bn256_modulus
    → AllInField (members ++ (leaf ∷ []))
All-snoc [] leaf h lt = (lt, tt)
All-snoc (m ∷ ms) leaf h lt = (h.0, All-snoc ms leaf h.1 lt)

module _ (permutation : ℕ → ℕ → ℕ) where
  abbrev pub root_of : ℕ → List ℕ → ℕ
  root_of levels members = tree_root (hash permutation) levels (member_row members)

  -- An allowlist that the contract still maintains itself.
  pub record IsAllowlist (levels : ℕ) (members : List ℕ) (s : Storage) : Type 0 where
    pub shallow : levels ≤ 32
    pub has_levels : s.levels ≡ some levels
    pub has_next : s.next_index ≡ some (length members)
    pub fits : length members ≤ 2 ^ levels
    pub in_field : AllInField members
    pub zero_hashes : ZeroesFor permutation levels 0 empty_leaf s.zeroes
    pub filled :
        FilledFor permutation levels 0 (length members) (member_row members) s.filled_subtrees
    pub has_root : s.root ≡ some (root_of levels members)
    pub on_chain : get_operator_maintained s ≡ false

-- The call may insert: the admin signed, or anybody may.
abbrev pub MayInsert : Host → Storage → Type 0
MayInsert host s =
    (a : ℕ) × (s.admin ≡ some a) × (get_admin_insert_only s ≡ true → host.authorizes a ≡ true)

insert_run :
    (host : Host) (levels leaf n top : ℕ) (filled : NatMap ℕ) (w : World)
    → leaf < bn256_modulus
    → get_operator_maintained w.storage ≡ false
    → MayInsert host w.storage
    → w.storage.levels ≡ some levels
    → w.storage.next_index ≡ some n
    → levels ≤ 32
    → n < 2 ^ levels
    → n < 2 ^ 32
    → climb host.permutation not_initialized w.storage.zeroes levels 0 n leaf
        w.storage.filled_subtrees
      ≡ ok (top, filled)
    → insert_leaf host leaf w
      ≡ ok (
          publish (leaf_added leaf n top) (record w {
            storage = record (w.storage) {
              filled_subtrees = filled;
              root = some top;
              next_index = some (n + 1);
            };
          }))
unfolding insert_leaf ensure_field_element
insert_run host levels leaf n top filled w lt on_chain (a, has_admin, signed) has_levels has_next
      shallow room small climbed =
    ground arith

module _ (host : Host) (closed : PermutesField host.permutation) (levels leaf : ℕ)
    (members : List ℕ) (w : World) where
  climb_insert :
      IsAllowlist host.permutation levels members w.storage
      → leaf < bn256_modulus
      → length members < 2 ^ levels
      → Climbed host.permutation not_initialized closed w.storage.zeroes levels 0
          (length members)
          (member_row (members ++ (leaf ∷ [])))
          w.storage.filled_subtrees
  climb_insert list lt room =
      climb-Climbed host.permutation not_initialized closed w.storage.zeroes levels 0
        (length members) empty_leaf (member_row members) (member_row (members ++ (leaf ∷ [])))
        w.storage.filled_subtrees
        (member_row_lt (members ++ (leaf ∷ [])) (All-snoc members leaf list.in_field lt))
        (λ i below. sym (get_or-append members (leaf ∷ []) i empty_leaf below))
        (λ i above.
          get_or-beyond (members ++ (leaf ∷ [])) i empty_leaf
            (omega (arith, length-append members (leaf ∷ []))))
        room list.filled list.zero_hashes

  -- A permitted insertion of a field element into an allowlist with room left appends it: the new
  -- root is that of the whole tree over the old members and the new one.
  pub insert_leaf_lem :
      IsAllowlist host.permutation levels members w.storage
      → MayInsert host w.storage
      → leaf < bn256_modulus
      → length members < 2 ^ levels
      → (w' : World) × (insert_leaf host leaf w ≡ ok w')
        × IsAllowlist host.permutation levels (members ++ (leaf ∷ [])) w'.storage
  insert_leaf_lem list allowed lt room = (
    w',
    insert_run host levels leaf (length members) root c.filled' w lt list.on_chain allowed
        list.has_levels list.has_next list.shallow room
        (le_trans room (pow-le-pow_right {n = 2} (omega arith) {i = levels} {j = 32} list.shallow))
        climbed,
    record {
      shallow = list.shallow;
      has_levels = list.has_levels;
      has_next = ap some (sym count);
      fits = rw count (omega arith);
      in_field = All-snoc members leaf list.in_field lt;
      zero_hashes = list.zero_hashes;
      filled = rw count c.complete;
      has_root = refl;
      on_chain = list.on_chain;
    },
  )
    where
      c :
          Climbed host.permutation not_initialized closed w.storage.zeroes levels 0
            (length members)
            (member_row (members ++ (leaf ∷ [])))
            w.storage.filled_subtrees
      c = climb_insert list lt room

      root : ℕ
      root = root_of host.permutation levels (members ++ (leaf ∷ []))

      w' : World
      w' = publish (leaf_added leaf (length members) root) (record w {
        storage = record (w.storage) {
          filled_subtrees = c.filled';
          root = some root;
          next_index = some (length members + 1);
        };
      })

      count : length (members ++ (leaf ∷ [])) ≡ length members + 1
      count = omega (arith, length-append members (leaf ∷ []))

      climbed :
          climb host.permutation not_initialized w.storage.zeroes levels 0
            (length members)
            leaf
            w.storage.filled_subtrees
          ≡ ok (root, c.filled')
      climbed =
          ap
            (λ node.
              climb host.permutation not_initialized w.storage.zeroes levels 0 (length members) node
                w.storage.filled_subtrees)
            (sym
              (get_or-append_right members (leaf ∷ []) (length members) 0 empty_leaf (omega arith)))
          ∙ c.result

-- A permitted insertion of a field element into a full allowlist is refused with
-- `merkle_tree_full`.
pub insert_leaf-full :
    (host : Host) (levels leaf : ℕ) (members : List ℕ) (w : World)
    → IsAllowlist host.permutation levels members w.storage
    → MayInsert host w.storage
    → leaf < bn256_modulus
    → length members ≡ 2 ^ levels
    → insert_leaf host leaf w ≡ err merkle_tree_full
unfolding insert_leaf ensure_field_element
insert_leaf-full host levels leaf members w list (a, has_admin, signed) lt full =
    ground (arith, list.on_chain, list.has_levels, list.has_next, list.shallow)
