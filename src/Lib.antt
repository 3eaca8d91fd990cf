-- ===== src/Lib.antt =====
-- The contracts of Veil: a shielded pool of notes, the allowlist that admits its spenders, the
-- verifier that its proofs go to, the testnet faucet, and the indexer that follows their events.
--
-- The program. A client calls `transact` or `exit` of the pool with a zero-knowledge proof. The
-- pool checks the proof's public inputs against its own state (recent roots, spent nullifiers),
-- the external data and the allowlist's live root, asks the verifier contract, marks the
-- nullifiers, inserts the output commitments into its Merkle tree and moves tokens. The
-- allowlist is a second Merkle tree, of spenders. The faucet enrols testers in it and mints
-- tokens to them. The indexer reads the events of pool and allowlist page by page into a
-- database, rebuilds both trees from them and compares them with the state on chain.
--
-- The files, each with its children:
-- - Prelude: Boolean tests on numbers, lists, maps with numeric keys, integers, and `Outcome`, what a
--   contract call ends with: a value, an error of the contract, or a trap of the host. Both undo
--   every write of the call, so a definition returns the state only with a value.
-- - Field: contracts/soroban-utils/src (constants.rs, and of poseidon2.rs `poseidon2_compress` and
--   `get_zeroes`).
-- - Tree: the loop by which both contracts append to a tree (`climb`), and the full tree, hashed row
--   by row, that it is measured against (`tree_root`).
-- - Pool: contracts/pool/src. Pool/Merkle is merkle_with_history.rs, Pool/Types the data of
--   types.rs, error.rs, event.rs and storage_types.rs, Pool/Storage storage.rs, Pool/Amount the
--   amounts of contract.rs, Pool/Settle its function `settle` with the helpers, cut into the
--   numbered steps, and verifier_boundary.rs, Pool/Contract its entry points. Pool/Invariant is what
--   holds of the storage between calls, Pool/Steps the calls of a deployed pool in sequence, and
--   Pool/Guards what a spend has been checked for.
-- - Asp: contracts/asp-membership/src.
-- - Verifier: contracts/verifier/src/contract.rs, without the key that the build
--   embeds, and in Verifier/Mock the stand-in contracts/mock-verifier/src/lib.rs.
-- - Faucet: contracts/faucet/src/lib.rs.
-- - ProofBytes: the proof bytes of contracts/types/src/lib.rs.
-- - Indexer: services/indexer/src. Indexer/Tree is tree.rs, Indexer/Position position.rs (and the ids
--   and the end-of-ledger cursor of seed.rs), Indexer/Event event/mod.rs with Indexer/Event/ScVal
--   event/scval.rs, Indexer/Store store.rs and the records of source.rs, Indexer/Ingest ingest.rs
--   with the pages of rpc.rs, Indexer/Rpc how rpc.rs reads an answer to a page, Indexer/Seed the
--   hand-off of seed.rs, Indexer/Verify the comparisons of verify.rs. Indexer/Tree/Agreement sets the
--   contract's allowlist beside both trees of the indexer, Indexer/Event/Published the events of the
--   contracts beside the decoders.
-- - Fixture: the trees of tools/policy-fixture/src/lib.rs, set beside the contracts' and the indexer's.
-- - Tests: runs of the definitions on a small pool, allowlist, verifier, faucet and index.
--
-- The state. A contract's persistent entries are a record `Storage` with an option for each key,
-- or a map for a key with an argument; `World` adds the events, and the calls of other contracts
-- that change something, in order. An address is a number that stands for it, and so is a point
-- of a curve. A `BytesN<32>` is the number that it encodes.
--
-- The surroundings. A record `Host` holds what a call takes from the host and from other
-- contracts: who authorized it, how the allowlist and the verifier answer, which transfers a
-- token takes, the digest of external data. Each call of a sequence has a host of its own. The
-- theorems ask of it nothing but this: the permutation returns field elements (`PermutesField`),
-- and, for deployments, the table of zeros is the chain that its comment says it is
-- (`HasZeroTable`). Where a call is to succeed, the token takes its transfers
-- (`TakesTransfers`). The theorems on the pool's tree take one permutation for all calls.
--
-- The indexer's surroundings are parameters likewise: the Poseidon2 permutation, the strkeys and
-- the writing and reading of XDR by libraries, the answer of the source at each request, and the
-- rows of the events' own tables. The time of each transaction is one too. The database is a record of its tables without their `CHECK` constraints; a transaction that
-- fails leaves it as it was.
--
-- Numbers. Unsigned host numbers are natural numbers; an operation that can leave its width is
-- an option or traps, as in the source. Signed ones are integers with the same tests.
--
-- Loops. They are recursion on a list or on the number of rounds left, which the source fixes in
-- advance: the levels of a tree, the leaves of a fixture's tree, each row of which is half as
-- long as the one below, or 90 rounds of the search for a root, which visit every slot of the
-- ring once from any start below 90. The loop of `sync_to_tip` has no such bound in the source:
-- it is recursion on the turns left and has none only after as many turns as there are
-- positions, since each turn that goes on moves the cursor forward.
--
-- Not modelled: a token that calls the pool back (a transfer may be refused, depending on the
-- pool's state at that moment, but cannot change it), the expiry of storage entries, and what
-- runs after `upgrade`, which no sequence of calls contains. The network and database code of
-- the indexer (requests, retries, migrations, the seed from an archive, the HTTP service), the
-- API service, the demo client, the rest of the fixtures and the circuit are left out.
pub mod Prelude
pub mod Field
pub mod Tree
pub mod Pool
pub mod Asp
pub mod Verifier
pub mod Faucet
pub mod Fixture
pub mod Indexer
pub mod ProofBytes
pub mod Tests
