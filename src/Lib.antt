-- ===== src/Lib.antt =====
-- A model of ProofBridge's Stellar contracts and of the rules that they share.
--
-- ProofBridge settles an order across two chains. On each chain an escrow contract holds one leg: the
-- ad-manager locks a maker's liquidity, the order-portal a bridger's deposit. A leg ends by a
-- co-signed unlock, by a proof of the other leg's Merkle leaf under a notarized root, or by a
-- dispute. The notary of roots is the root-anchor contract, disputes live in the dispute-manager,
-- and the rules that must agree everywhere live in one crate, proofbridge-core.
--
-- Files and what they model:
--   Base            lists, maps, the host's execution model (Base/Contract) and its functions
--                   (Base/Platform). A contract call is a function from storage to a value and the
--                   new storage, an error, or a trap; errors and traps revert. A storage prefix is an
--                   association list, an address or a 32-byte value is a number, and authorization
--                   is a test on addresses that the ledger provides.
--   Core            stellar/lib/proofbridge-core/src: fees.rs, timing.rs, decimal_scaling.rs,
--                   rate_limit.rs, dispute.rs (Core/Bonds), types.rs (Core/Orders), the faults of
--                   escrow_ops.rs, and timelock.rs.
--   DisputeManager  stellar/contracts/dispute-manager/src: State is storage.rs and errors.rs, Admin the
--                   setters, Payouts the bond payments and credits, Disputes the filing, the answer,
--                   the ruling, the close and the views; Histories runs calls and says what is
--                   reachable; the rest proves. The token contracts are a parameter, a world with
--                   balances and transfers, which changes between calls as the ledger goes on.
--   Escrow          stellar/lib/proofbridge-core/src/escrow_storage.rs and the termination core of
--                   escrow_ops.rs: orders, versioned route clocks, presentation windows (State,
--                   Termination), and the calls into the dispute modules (Filing, Closing), on a joint
--                   state of the escrow, the module at each address, and the tokens; the rest proves.
--                   Payments is token.rs and the pull payments, Legs the setters that both escrows have,
--                   the endings of a leg, and the Merkle and proof calls of cross_contract.rs, over the
--                   contracts that an escrow calls (Peers).
--   MerkleManager   stellar/contracts/merkle-manager/src/mmr.rs: the positions of a mountain range,
--                   that is, how many peaks and nodes a width has and where its leaves and peaks are.
--   OrderPortal     stellar/contracts/order-portal/src: State is types.rs, storage.rs and errors.rs,
--                   Admin the setters, Checks is validation.rs and the gates of an unlock and of
--                   evidence, Orders the life of an order; Histories runs calls and keeps, beside the
--                   storage, a book of the deposits that are held, since the storage has only hashes;
--                   Calls says who a call that ends an order is due to pay; the rest proves. The token contracts, the Merkle manager, the verifiers, the notary
--                   and the order hash are parameters.
--   RootAnchor      stellar/contracts/root-anchor/src: State and Admin are storage.rs and the admin
--                   entry points, Notary is `anchor` step by step and `is_anchored`, Histories runs
--                   sequences of calls; the rest proves.
--   Tests           runs at concrete inputs.
--
-- Checked arithmetic of the release profile is written out at its width where a value can reach it:
-- an overflow is a trap, or `none` in a pure rule. SHA-256 and XDR are parameters (Host). Loops are
-- recursions on lists or on a loop's counter, but for the two `while` loops of mmr.rs that are
-- modelled: each has 128 rounds of fuel, one for each bit of a width.
--
-- Not modelled: events and the extension of storage lifetimes, which no later call reads; signature
-- and proof verification, token contracts and elliptic-curve code, which are not part of the source;
-- the calls of escrow_ops.rs and cross_contract.rs that only the ad-manager uses; the remaining
-- contracts (ad-manager, the rest of merkle-manager, agent-account, bls-key-registry, registrar,
-- counterparty-verifier), the Solidity twin, and the deployment scripts.
pub mod Base
pub mod Core
pub mod DisputeManager
pub mod Escrow
pub mod MerkleManager
pub mod OrderPortal
pub mod RootAnchor
mod Tests
