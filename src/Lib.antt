-- ===== src/Lib.antt =====
-- Byreal CLMM venue for Titan: the off-chain quoting crate (src/) and the on-chain route program (program/).
--
-- The parts and how they interact. A venue (src/byreal_clmm) keeps a snapshot of one pool; it is
-- refreshed through an account cache (src/account_caching), quotes swaps, and finds the range of amounts
-- it can quote by probing its own quotes (src/trading_venue/bounds.rs). A route builder (src/swap_route)
-- turns the venue's swap instruction into a leg of the route program's instruction. The route program
-- (program/) takes the user's tokens into accounts of its own address (the TitanPDA), runs each leg as a
-- call of the venue program, pays the output out, and checks that it has spent none of the balances that
-- it held before.
--
-- The files.
--   Base: library names, Boolean tests, lists, integers, results, little-endian bytes.
--   TradingVenue: src/trading_venue; Error is error.rs and protocol.rs, Request the types of mod.rs,
--     TokenInfo is token_info.rs, Interface the trait TradingVenue of mod.rs, Bounds is bounds.rs (Coarse,
--     Refine, Search and Interval prove).
--   Solana: the account and instruction types of the Solana SDK.
--   AccountCaching: src/account_caching, with each operation as a whole; Interleaved is the same operations
--     access by access, as calls that run at the same time. Coherence, Fetch, Session (calls one after the
--     other) and the children of Interleaved prove.
--   ByrealClmm: src/byreal_clmm; of core.rs Library is what it takes of other crates, TickArray the decoded
--     tick arrays, Core its state and checks, TickArrays the arrays that it names, Keys the accounts that it
--     asks for and decodes, Update update_state, Build build_swap_instruction, Navigate the way from tick to
--     tick, Swap the fee and the swap, Quote the quotes; of mod.rs Venue is the state, the update and the
--     quote, Trade the bounds and the instruction, Implementation the methods as a value of the trait,
--     Creation the parser of pool creations. TickArray/Scan, TickArrays/Live, Core/Checks,
--     Build/Shape and the children of Update, Swap, Quote, Venue and Creation prove.
--   SwapRoute: src/swap_route; Encoding proves about its bytes, Leg about its legs.
--   RouteProgram: program/programs/byreal-titan-venue-program/src; State is state.rs and error.rs, Runtime
--     the accounts and calls that a program sees, and of instructions/swap_route_v3.rs Accounts is the
--     readers of accounts, Bitmap is TitanPdaBitmap, Calls the helpers that call other programs (with
--     instructions/venues/byreal_clmm.rs), Route the loops of execute, and Execute their composition.
--     Route/Amount, Route/Cpi, Execute/Marks, Execute/Stages, Execute/Reserve and Execute/Guards prove.
--   Integration: proves of the venue, the builder and the program together.
--   Tests: the modules of this name run the definitions and apply the theorems.
--
-- How code corresponds to definitions. A Rust function is the function of the same name in snake case; a
-- struct is a record and an enum a data type with its variants as constructors. A u64 is a native number
-- below 2 ^ 64 and every wrap, saturation and checked operation is written out. The crate is built without
-- overflow checks and the program with them. `Result` has a third constructor, `fault`, for a panic or for
-- fuel that has run out. A closure that the code takes is a function argument.
--
-- Bounds and fuel. The loops of bounds.rs run on 64 rounds of fuel: the coarse search doubles a u64 from 1
-- or 2 up and the refinement halves an interval of u64s, so 64 rounds suffice, which is proved.
-- Navigation and swap in Navigate and Swap take their fuel as an argument. The swap loop needs a round for every
-- tick that it comes to, and the fuel of the search of the next tick. What that search needs is a hypothesis of the
-- lemmas in Swap/Ends, Swap/Totals and Venue/Answers. In Swap/Loaded, Swap/Steps and Venue/Loaded the bound is the ticks of the
-- range and the width of an array, since each array that the search goes on to lies at least one array further.
--
-- The fuel-free loops of the route program go over lists, or count the mints down.
--
-- Not modelled: what a called program does to the accounts (the field invoke of Runtime; a call may change
-- any account in any way), Anchor's checks of the named accounts, signer seeds beyond the fact that they are
-- given, compute and size limits, and the locks inside the account cache's DashMap (an access is atomic). An error of a
-- program leaves no new state, since the runtime undoes the instruction.
pub mod Base
pub mod AccountCaching
pub mod TradingVenue
pub mod Solana
pub mod RouteProgram
pub mod SwapRoute
pub mod ByrealClmm
pub mod Integration
