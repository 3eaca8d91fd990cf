-- ===== src/Indexer/Verify/Replayed.antt =====
-- The replay of the allowlist's rows as insertions into a tree (the loop of `check_allowlist` of
-- services/indexer/src/verify.rs).
use Prim.Native.String.{String}
use mathlib.Core.List.{append_assoc, append-nil}
use mathlib.Core.Path.{subst}
use native.Mathlib.Nat.{pow-le-pow_right, le_trans}
use text.Mathlib.Text.{◌==◌ as ◌is◌}
use veil_contract.Prelude.{
  ℕ, suc, ◌+◌, ◌≡◌, ◌∙◌, sym, ap, refl, Bool, true, false, ◌&&◌, ◌||◌, List, [], ◌∷◌, ◌++◌, Option,
  none, some, Outcome, ok, err, trap, inl, inr, Bool-cases, >>=-eq-ok, ok-injective, length,
  length-append, arith, ◌==◌, ==_iff, if◌then◌else◌,
}
use veil_contract.Prelude.Int.{ℤ, pos, negsuc}
use veil_contract.Field.{from_be_bytes}
use veil_contract.Asp.Insert.{root_of}
use veil_contract.Indexer.Tree.{TreeError, IncrementalTree, from_u256, push}
use veil_contract.Indexer.Tree.Push.{IsTree, push-IsTree}
use veil_contract.Indexer.Verify.{
  AllowlistRow, Replay, VerifyError, lift_tree, u256, index, optional_index, is_next,
  replay_insertion, replay_row, replay, saturating_succ,
}

pub lift_tree-ok :
    {A : Type 0} (call : Outcome TreeError A) (a : A) → lift_tree call ≡ ok a → call ≡ ok a
lift_tree-ok (ok b) a h = cc
lift_tree-ok (err e) a h = absurd cc
lift_tree-ok trap a h = absurd cc

if-ok :
    {A : Type 0} (passes : Bool) (a value : A) (e : VerifyError)
    → (if passes then ok a else err e) ≡ ok value
    → a ≡ value
if-ok true a value e h = ok-injective h
if-ok false a value e h = absurd cc

pub u256-ok :
    (bytes : List ℕ) (what : String) (value : ℕ)
    → u256 bytes what ≡ ok value
    → from_be_bytes bytes ≡ value
unfolding u256
u256-ok bytes what value h = if-ok (length bytes == 32) _ value _ h

pub from_u256-ok : (value element : ℕ) → from_u256 value ≡ ok element → value ≡ element
unfolding from_u256
from_u256-ok value element h = ground (arith, h)

is_next-some :
    (i : Option ℤ) (o : Option ℕ) (next : ℕ)
    → optional_index i ≡ ok o
    → is_next o next ≡ true
    → i ≡ some (pos next)
unfolding index
is_next-some none none next read h = absurd cc
is_next-some none (some k) next read h = absurd cc
is_next-some (some (pos n)) none next read h = absurd cc
is_next-some (some (pos n)) (some k) next read h = let same = (==_iff k next).0 h in cc
is_next-some (some (negsuc n)) o next read h = absurd cc

all_three : (a b c : Bool) → (a && b && c) ≡ true → (a ≡ true) × (b ≡ true) × (c ≡ true)
all_three a b c h = ground arith

module _ (permutation : ℕ → ℕ → ℕ) (levels : ℕ) where
  -- Each row is the insertion of a leaf at the next index, with the root of the full tree after it.
  abbrev pub RowsAgree : List ℕ → List AllowlistRow → List ℕ → Type 0
  RowsAgree members [] [] = Unit
  RowsAgree members [] (leaf ∷ leaves) = ⊥
  RowsAgree members (row ∷ rows) [] = ⊥
  RowsAgree members (row ∷ rows) (leaf ∷ leaves) =
      (from_be_bytes row.leaf ≡ leaf)
      × (row.leaf_index ≡ some (pos (length members)))
      × (from_be_bytes row.root ≡ root_of permutation levels (members ++ (leaf ∷ [])))
      × RowsAgree (members ++ (leaf ∷ [])) rows leaves

  -- The replay so far is that of insertions.
  pub record IsReplay (members : List ℕ) (r : Replay) : Type 0 where
    pub tree : IsTree permutation levels members r.tree
    pub count : r.replayed ≡ length members
    pub on_chain : r.handed_to_operator ≡ false

  replayed_succ :
      (members : List ℕ) (tree : IncrementalTree)
      → IsTree permutation levels members tree
      → saturating_succ (length members) ≡ length members + 1
  replayed_succ members tree held =
      let small =
        le_trans held.fits
          (pow-le-pow_right {n = 2} (omega arith) {i = levels} {j = 32} held.depth.1) in
      ground (arith, small)

  replay_insertion-IsReplay :
      (row : AllowlistRow) (emitted : ℕ) (members : List ℕ) (r r' : Replay)
      → IsReplay members r
      → replay_insertion permutation row emitted r ≡ ok r'
      → (leaf : ℕ) × IsReplay (members ++ (leaf ∷ [])) r'
        × (from_be_bytes row.leaf ≡ leaf)
        × (r'.emitted_roots_match ≡ true
            → (r.emitted_roots_match ≡ true)
              × (row.leaf_index ≡ some (pos (length members)))
              × (emitted ≡ root_of permutation levels (members ++ (leaf ∷ []))))
  unfolding replay_insertion
  replay_insertion-IsReplay row emitted members r r' held h =
      let (o, has_index, h1) = >>=-eq-ok (optional_index row.leaf_index) _ h in
      let (value, has_value, h2) = >>=-eq-ok (u256 row.leaf "allowlist leaf") _ h1 in
      let (leaf, has_leaf, h3) = >>=-eq-ok (lift_tree (from_u256 value)) _ h2 in
      let ((computed, tree), has_pushed, h4) =
        >>=-eq-ok (lift_tree (push permutation leaf r.tree)) _ h3 in
      let (top, held') =
        push-IsTree permutation levels leaf computed members r.tree tree held.tree
          (lift_tree-ok _ _ has_pushed) in
      let read =
        u256-ok row.leaf _ value has_value ∙ from_u256-ok value leaf (lift_tree-ok _ _ has_leaf) in
      let now = ok-injective h4 in
      subst
        (λ (x : Replay).
          (l : ℕ) × IsReplay (members ++ (l ∷ [])) x
          × (from_be_bytes row.leaf ≡ l)
          × (x.emitted_roots_match ≡ true
              → (r.emitted_roots_match ≡ true)
                × (row.leaf_index ≡ some (pos (length members)))
                × (emitted ≡ root_of permutation levels (members ++ (l ∷ [])))))
        now
        (
          leaf,
          record {
            tree = held';
            count =
                ap saturating_succ held.count
                ∙ replayed_succ members r.tree held.tree
                ∙ sym (length-append members (leaf ∷ []));
            on_chain = refl;
          },
          read,
          λ agrees.
              let (matched, index_is, root_is) =
                all_three r.emitted_roots_match (is_next o r.tree.next_index) (computed == emitted)
                  agrees in
              (
                matched,
                is_next-some row.leaf_index o (length members) has_index
                    (subst (λ n. is_next o n ≡ true) held.tree.has_next index_is),
                sym ((==_iff computed emitted).0 root_is) ∙ top,
              ),
        )

  row_handed :
      (row : AllowlistRow) (emitted : ℕ) (r r' : Replay)
      → replay_row permutation true row emitted r ≡ ok r'
      → r'.handed_to_operator ≡ true
  unfolding replay_row
  row_handed row emitted r r' h = ap (λ x. x.handed_to_operator) (ok-injective (sym h))

  -- Once the operator has the list, it keeps it.
  replay-handed :
      (rows : List AllowlistRow) (r r' : Replay)
      → r.handed_to_operator ≡ true
      → replay permutation rows r ≡ ok r'
      → r'.handed_to_operator ≡ true
  unfolding replay
  replay-handed [] r r' handed h = subst (λ x. x.handed_to_operator ≡ true) (ok-injective h) handed
  replay-handed (row ∷ rows) r r' handed h =
      let (emitted, has_root, h1) = >>=-eq-ok (u256 row.root "allowlist root") _ h in
      let (middle, first, rest) =
        >>=-eq-ok
          (replay_row permutation (r.handed_to_operator || (row.kind is "revoked")) row emitted r) _
          h1 in
      let still : (r.handed_to_operator || (row.kind is "revoked")) ≡ true = rw handed refl in
      replay-handed rows middle r'
        (row_handed row emitted r middle
          (subst (λ f. replay_row permutation f row emitted r ≡ ok middle) still first))
        rest

  -- Rows after which the list is still maintained on chain are insertions, and if every root matched
  -- then each agrees with the leaves that it inserted.
  pub replay-IsReplay :
      (rows : List AllowlistRow) (members : List ℕ) (r r' : Replay)
      → IsReplay members r
      → replay permutation rows r ≡ ok r'
      → r'.handed_to_operator ≡ false
      → r'.emitted_roots_match ≡ true
      → (r.emitted_roots_match ≡ true)
        × ((leaves : List ℕ) × IsReplay (members ++ leaves) r' × RowsAgree members rows leaves)
  unfolding replay
  replay-IsReplay [] members r r' held h on_chain agrees =
      let same = ok-injective h in
      (
        subst (λ x. x.emitted_roots_match ≡ true) (sym same) agrees,
        (
          [],
          subst (IsReplay (members ++ [])) same
              (subst (λ m. IsReplay m r) (sym (append-nil members)) held),
          tt,
        ),
      )
  replay-IsReplay (row ∷ rows) members r r' held h on_chain agrees =
      let (emitted, has_root, h1) = >>=-eq-ok (u256 row.root "allowlist root") _ h in
      let (middle, first, rest) =
        >>=-eq-ok
          (replay_row permutation (r.handed_to_operator || (row.kind is "revoked")) row emitted r) _
          h1 in
      elim (Bool-cases (r.handed_to_operator || (row.kind is "revoked"))) [
        | inl handed ↦ absurd (
            let ended =
              replay-handed rows middle r'
                (row_handed row emitted r middle
                  (subst (λ f. replay_row permutation f row emitted r ≡ ok middle) handed first))
                rest in
            cc)
        | inr kept ↦
            let (leaf, held', read, matched) =
              replay_insertion-IsReplay row emitted members r middle held
                (subst (λ f. replay_row permutation f row emitted r ≡ ok middle) kept first) in
            let (matched', (leaves, held'', others)) =
              replay-IsReplay rows (members ++ (leaf ∷ [])) middle r' held' rest on_chain agrees in
            let (before, index_is, root_is) = matched matched' in
            (
              before,
              (
                leaf ∷ leaves,
                subst (λ m. IsReplay m r') (append_assoc members (leaf ∷ []) leaves) held'',
                (read, index_is, u256-ok row.root _ emitted has_root ∙ root_is, others),
              ),
            )
      ]

  pub RowsAgree-length :
      (members : List ℕ) (rows : List AllowlistRow) (leaves : List ℕ)
      → RowsAgree members rows leaves
      → length leaves ≡ length rows
  RowsAgree-length members [] [] agree = refl
  RowsAgree-length members [] (leaf ∷ leaves) agree = absurd agree
  RowsAgree-length members (row ∷ rows) [] agree = absurd agree
  RowsAgree-length members (row ∷ rows) (leaf ∷ leaves) agree =
      ap suc (RowsAgree-length (members ++ (leaf ∷ [])) rows leaves agree.3)
