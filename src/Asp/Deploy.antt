-- ===== src/Asp/Deploy.antt =====
-- The constructor of the allowlist.
use native.Mathlib.Decide.{ℕ_discrete}
use veil_contract.Prelude.{
  ℕ, zero, suc, ◌+◌, ◌≤◌, ◌<◌, ◌≡◌, ◌⊎◌, ◌∙◌, sym, ap, refl, some, [], get_elem?, ok, err, true,
  arith, update, update_self, update_ne,
}
use veil_contract.Field.Chain.{empty_leaf, zero_at, HasZeroTable}
use veil_contract.Field.Zeroes.{get_zeroes}
use veil_contract.Tree.Empty.{tree_root-empty, FilledFor-empty, ZeroesFor-table}
use veil_contract.Asp.{
  Storage, World, unwritten, wrong_levels, init_levels, constructor, get_operator_maintained,
}
use veil_contract.Asp.Insert.{IsAllowlist}

module _ (permutation : ℕ → ℕ → ℕ) where
  -- What the loop of the constructor leaves behind.
  record Zeroed (rounds i : ℕ) (s s' : Storage) : Type 0 where
    result : init_levels rounds i get_zeroes s ≡ ok s'
    same_admin : s'.admin ≡ s.admin
    same_levels : s'.levels ≡ s.levels
    same_next : s'.next_index ≡ s.next_index
    same_mode : s'.operator_maintained ≡ s.operator_maintained
    written : (j : ℕ) → i ≤ j → j < i + rounds → s'.zeroes j ≡ some (zero_at permutation j)
    before : (j : ℕ) → j < i → s'.zeroes j ≡ s.zeroes j

  init_levels-Zeroed :
      HasZeroTable permutation
      → (rounds i : ℕ) (s : Storage) → i + rounds ≤ 33
      → (s' : Storage) × Zeroed rounds i s s'
  unfolding init_levels
  init_levels-Zeroed table zero i s le = (
    s,
    record {
      result = refl;
      same_admin = refl;
      same_levels = refl;
      same_next = refl;
      same_mode = refl;
      written = λ j lo hi. absurd (omega arith);
      before = λ j lt. refl;
    },
  )
  init_levels-Zeroed table (suc rounds) i s le =
      let z = zero_at permutation i in
      let s1 = record s {
        filled_subtrees = update s.filled_subtrees i z;
        zeroes = update s.zeroes i z;
      } in
      let (s', h) = init_levels-Zeroed table rounds (i + 1) s1 (omega arith) in
      (
        s',
        record {
          result = rw (table i (omega arith)) h.result;
          same_admin = h.same_admin;
          same_levels = h.same_levels;
          same_next = h.same_next;
          same_mode = h.same_mode;
          written = λ j lo hi. elim (ℕ_discrete j i) [
            | yes e ↦ h.before j (omega arith) ∙ (rw e (update_self s.zeroes i z))
            | no ne ↦ h.written j (omega arith) (omega arith)
          ];
          before = λ j lt. h.before j (omega arith) ∙ update_ne s.zeroes i j z (omega arith);
        },
      )

  -- The entries that the constructor writes before its loop.
  abbrev begun : ℕ → ℕ → Storage
  begun admin levels = record unwritten {
    admin = some admin;
    levels = some levels;
    next_index = some 0;
    admin_insert_only = some true;
  }

  constructor_run :
      (admin levels : ℕ) (w : World) (s : Storage)
      → w.storage ≡ unwritten
      → 0 < levels
      → levels ≤ 32
      → get_elem? get_zeroes levels ≡ some (zero_at permutation levels)
      → init_levels (levels + 1) 0 get_zeroes (begun admin levels) ≡ ok s
      → constructor admin levels w
        ≡ ok (record w { storage = record s { root = some (zero_at permutation levels) } })
  unfolding constructor
  constructor_run admin levels w s fresh lo hi entry looped = rw fresh (ground arith)

  -- On unwritten storage, and if the table of zeros is the chain of the permutation, a deployment
  -- with 1 to 32 levels succeeds and stores the administrator and an empty allowlist.
  pub constructor-IsAllowlist :
      (admin levels : ℕ) (w : World)
      → HasZeroTable permutation
      → w.storage ≡ unwritten
      → 0 < levels
      → levels ≤ 32
      → (w' : World) × (constructor admin levels w ≡ ok w')
        × (w'.storage.admin ≡ some admin)
        × IsAllowlist permutation levels [] w'.storage
  constructor-IsAllowlist admin levels w table fresh lo hi =
      let (s, z) = init_levels-Zeroed table (levels + 1) 0 (begun admin levels) (omega arith) in
      (
        record w { storage = record s { root = some (zero_at permutation levels) } },
        constructor_run admin levels w s fresh lo hi (table levels hi) z.result,
        z.same_admin,
        record {
          shallow = hi;
          has_levels = z.same_levels;
          has_next = z.same_next;
          fits = omega arith;
          in_field = tt;
          zero_hashes =
              ZeroesFor-table permutation levels 0 s.zeroes
                (λ j le lt. z.written j (omega arith) (omega arith));
          filled = FilledFor-empty permutation levels 0 _ s.filled_subtrees;
          has_root = ap some (
              sym (
                tree_root-empty permutation levels 0 (λ i. empty_leaf) (λ i. refl)
                ∙ ap (zero_at permutation) {y = levels} (omega arith)));
          on_chain =
              ap (λ m. get_operator_maintained (record unwritten { operator_maintained = m }))
                z.same_mode;
        },
      )

-- A deployment with 0 levels or more than 32 is refused.
pub constructor-wrong_levels :
    (admin levels : ℕ) (w : World)
    → (levels ≡ 0) ⊎ (32 < levels)
    → constructor admin levels w ≡ err wrong_levels
unfolding constructor
constructor-wrong_levels admin levels w h = ground arith
