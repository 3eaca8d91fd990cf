-- ===== src/Pool/Contract/Deploy.antt =====
-- The constructor.
use veil_contract.Prelude.{ℕ, suc, ◌≤◌, ◌<◌, ◌≡◌, refl, [], ok, arith, empty_map}
use veil_contract.Field.Chain.{HasZeroTable}
use veil_contract.Pool.Merkle.{Store, init, blank}
use veil_contract.Pool.Merkle.Init.{init_lem}
use veil_contract.Pool.Types.{PoolConfig, World, unwritten}
use veil_contract.Pool.Amount.{max_fee_bps}
use veil_contract.Pool.Contract.{configured, constructor, get_config}
use veil_contract.Pool.Invariant.{IsPool}

constructor_run :
    (c : PoolConfig) (levels : ℕ) (w : World) (tree : Store)
    → w.storage ≡ unwritten
    → c.fee_bps ≤ max_fee_bps
    → init levels blank ≡ ok tree
    → constructor c levels w
      ≡ ok (record w { storage = record (configured c unwritten) { tree = tree } })
unfolding constructor
constructor_run c levels w tree fresh le built = rw fresh (ground (arith))

-- On unwritten storage, and if the table of zeros is the chain of the permutation, a deployment with
-- a fee of at most 100% and 1 to 32 levels succeeds; it stores the configuration, and the pool
-- satisfies its invariant with an empty tree.
pub constructor_lem :
    (permutation : ℕ → ℕ → ℕ) (c : PoolConfig) (depth : ℕ) (w : World)
    → HasZeroTable permutation
    → w.storage ≡ unwritten
    → c.fee_bps ≤ max_fee_bps
    → depth < 32
    → (w' : World) × (constructor c (suc depth) w ≡ ok w')
      × (get_config w'.storage ≡ ok c)
      × IsPool permutation depth [] w'.storage
unfolding configured get_config
constructor_lem permutation c depth w table fresh le shallow =
    let (tree, built, is_tree) = init_lem permutation depth table shallow in
    (
      record w { storage = record (configured c unwritten) { tree = tree } },
      constructor_run c (suc depth) w tree fresh le built,
      refl,
      record {
        tree = is_tree;
        spent = empty_map;
        has_spent = refl;
        used = empty_map;
        has_used = refl;
        used_leaf = λ a h. cc;
        leaf_used = λ a h. absurd h;
        distinct = tt;
        bps = c.fee_bps;
        has_bps = refl;
        bps_le = le;
      },
    )

-- A deployment succeeds only with a fee of at most 100% and 1 to 32 levels.
pub constructor_checked :
    (c : PoolConfig) (levels : ℕ) (w w' : World)
    → constructor c levels w ≡ ok w'
    → (c.fee_bps ≤ max_fee_bps) × (0 < levels) × (levels ≤ 32)
unfolding constructor init
constructor_checked c levels w w' h = ground arith
