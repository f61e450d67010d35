-- ===== src/Lib.antt =====
-- Anqa is a perpetuals venue whose program runs in a rollup. This library models the TypeScript
-- around that program: the terminal's decoder and its money flows, the instructions that it builds,
-- the keeper that drives the venue, the market maker, and the connection that the keeper sends over.
--
-- Portfolio (web/lib/portfolio.ts): the decoder of a trader's account. Bytes are lists of numbers,
--   a read past the end is `none` where the source throws and 0 where it reads undefined as 0.
--   Words: fixed-width fields; Legs: `readKernel`; Raw: the wrapper's header; Margin: equity.
-- Keeper (app/keeper.ts): Position is `readPosition`, which reads the same account; Isolated is
--   `isolatedSweep`'s decision; Deposits is `claimDeposits`; Mirror is `provisionMirror`, Views the
--   two loops around it; Scan is `scanHolders`, Jobs `riskJob`, Settle `settle`, Passes `every`; Crank is
--   `assetLag`, `crankBurst`, `crankUntilCurrent`, `catchUp` and `walkOff`; Requote is the watchdog
--   that lays the maker's ladder again.
-- Maker (app/maker-daemon.ts): the resident market maker. Position is `readPosition`, Ladder is about
--   `desiredLadder`, Send is `withSession` and `send`; Cycle is `quoteMarket`: Exact, Wanted and Laid
--   follow one side through its loops, Refines the whole cycle, over a wire on which every write
--   succeeds; Sound and Backed do so where writes fail.
-- Rpc (app/rpc.ts): `acquire` and `release`, `retryingFetch` and `confirmTransaction`.
-- Money (web/lib/margin.ts): `fundMarket`, `defundMarket`, `closeAndSweep`,
--   `ensurePortfolioPrivate` and `migrateToPrivate`, over the decoder's `equity`.
-- Actions (web/lib/actions.ts, and `anqaAccounts` of web/lib/anqa.ts): the instructions and
--   accounts that Money's transactions and the trading screens are made of.
-- Ticket (web/components/TradeForm.tsx): the order ticket. Order is what it sends (`usdToTicks` of
--   web/lib/anqa.ts in it), Submit its button, with Money's `fundMarket` and Sessions' wait in
--   it, Stops is `armStops` and `confirmPositionChange`.
-- Positions (web/components/ManageMarginModal.tsx): moving a position's collateral, against
--   programs/anqa-core/src/instructions/manage_collateral.rs; Closing is the close button of
--   web/components/BottomTabs.tsx.
-- Sessions (web/lib/session.ts, web/lib/teeSession.ts): Grants is the trading key's grant, with
--   `requireTradingSession` of web/components/BottomTabs.tsx, Token the login on the private rollup.
-- Tape (web/lib/anqa.ts): `readTape`, with the ring that the program writes (tape.rs).
-- Book (web/lib/anqa.ts): `walkSide`, with the program's insertion (state/book.rs); of the program's own
--   loop, which has no bound, as many rounds are given as the side links slots.
-- Common: Boolean tests, lists and integers over the native numbers, and asynchronous functions,
--   which run against a state, may throw, and keep what they did before the throw.
--
-- What a network, a clock or `Math.random` answers is a parameter: a stream that is read by the
-- number of the await, round or attempt. Interleavings are step relations (Rpc/Semaphore,
-- Keeper/Jobs, Keeper/Passes, Sessions/Token, Positions/Closing, Keeper/Requote/Slot); in the last
-- one two flags say whether Node reports an exit after an error and whether `spawn` itself throws.
-- A call that throws may have landed all the same: the ticket's order and its stops carry a flag for it,
-- which the results that need it take as false.
--
-- Bounds. The loop of `retryingFetch` has none of its own: max_retries + 1 rounds are given, one
-- for each attempt that it allows. The loop of `confirmTransaction` gets 241 rounds; each sleeps
-- 250 ms, so they pass its deadline of 60 s. The chunks of a burst get as many rounds as
-- transactions. Every other loop of the TypeScript has its bound in the source.
--
-- Numbers. USD amounts are whole atoms, prices and lots whole numbers; a quotient that the source takes
-- in floats is compared multiplied out, and the isolated sweep has the bound of 2^53 below which its floats
-- are exact as a hypothesis. Typed amounts are quotients that are not negative (Common/Ratio). Where a
-- double decides, its rounding is a parameter: the floor of the ticket's lots, which is off by one at most
-- below 2^50 (IsFloor), and what the modal's cap may gain. An address is what it is derived from.
--
-- The daemon's `Math.round` is a parameter, a function of an exact quotient, which keeps whole
-- quotients and never decreases (IsRounding). Its orders are not filled within a cycle, and the book
-- takes an order whose client-order id is in use, as programs/anqa-core/src/state/book.rs does.
--
-- A claim that the rollup takes is taken to credit what the ledger records, as
-- programs/anqa-core/src/instructions/claim_deposit.rs does.
--
-- Not modelled: the program itself but for the pure functions that the terminal and the keeper
-- mirror (programs/anqa-core/src/state/risk.rs, instructions/close_position.rs and
-- manage_collateral.rs), the tape (state/tape.rs) and the insertion into the book
-- (state/book.rs); the kernel under vendor; the rendering of pages, hooks, routes and one-shot
-- scripts; the setting up of the maker's accounts; liquidation prices, quotients of doubles that
-- are only shown; of the keeper the relays, the marking of accounts and the checkpoints; key
-- storage and the parsing of tokens; log lines and the wording of errors.
pub mod Common
pub mod Portfolio
pub mod Keeper
pub mod Rpc
pub mod Actions
pub mod Money
pub mod Maker
pub mod Tape
pub mod Ticket
pub mod Positions
pub mod Sessions
pub mod Book
