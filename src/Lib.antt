-- ===== src/Lib.antt =====
-- wealthfolio-connect-self-hosted, a sync server for the Wealthfolio web edition: a model of the Go
-- program's core and the theorems that make it correct.
--
-- The program authenticates clients (internal/infrastructure/auth, internal/application/auth,
-- internal/interfaces/http/middleware), pulls snapshots from broker clients on a schedule and
-- persists them through repositories (internal/application/sync, internal/domain), and serves what
-- is stored. The files:
--
--   Prelude, Prelude/*   shared names, tests, lists; Go maps (Map), integers (Int), times (Time) and
--                        texts (Text).
--   Auth/Defs            internal/domain/auth/auth.go: claims, token pairs, sentinel errors.
--   Auth/Refresh         RefreshStore of internal/infrastructure/auth/jwt.go: validate is Validate,
--                        issue is Issue, evict_expired is evictExpiredLocked. Evict, Laws and
--                        Lifetime are about it.
--   Auth/Signer          JWTSigner of the same file: sign is Sign, verify is Verify.
--   Auth/Service         internal/application/auth/service.go: refresh is Refresh, issue_session is
--                        IssueSession; issue_pair is the code that both share. Access, Sessions and
--                        Rotation are about it.
--   Auth/Gate            the APIKey and Bearer middleware of
--                        internal/interfaces/http/middleware/middleware.go.
--   Domain/Brokerage     internal/domain/brokerage/entities.go. Domain/Error: Go's error values.
--   Sync/Ports           internal/domain/sync/ports.go and the repositories that the engine calls.
--   Sync/Persist         persistSnapshot of internal/application/sync/service.go, loop by loop.
--   Sync/Plan            the same writes as a list; Disabled, Partial and Order are about it.
--   Sync/Engine          persistActivityPage, syncOne, runClient, RunOnce. Laws are about it.
--   Sync/Workers         beginClient and endClient under every interleaving of goroutines.
--   Limits/Binance       weightTransport of internal/infrastructure/clients/binance/ratelimit.go:
--                        round_trip is RoundTrip, over the state of the network. Window and
--                        Cooldown are about it.
--   Limits/SnapTrade     rateLimiter of internal/infrastructure/clients/snaptrade/limiter.go: attempt
--                        is one turn of the loop of wait, observe is observe. Window, Budget, Account
--                        and Retry are about it.
--   Persistence/*        internal/infrastructure/persistence: AccountModel, ActivityModel, Connections
--                        and Holdings have the rows; Accounts is accountRepo, Activities is
--                        activityRepo (its List is Activities/Listing), Connections connectionRepo,
--                        Holdings holdingRepo.
--                        Accounts/Table says what the database promises of the accounts;
--                        Repositories puts the repositories behind the ports of the sync engine.
--   Persistence/Steam    the repository of internal/infrastructure/persistence/steam_model.go: Snapshots,
--                        Imports and Evidence are its saves and loads; Table says what the database
--                        promises of the acquisition rows. Upgrade, Written and Reported are about it.
--   Steam                internal/infrastructure/clients/steam: Model is
--                        internal/domain/steam/entities.go; Match, Resolve and Acquisitions are the
--                        attribution of reconcile.go (Match/*, Resolve/* and Acquisitions/Stronger are
--                        about it); Lots is buildLots (Members, Once), Cursors the durable state of the imports,
--                        Valuation PnL, toPosition and toActivity, Names the key of a price
--                        (prices.go), Assemble and Snapshot are Fetch from the prices on;
--                        EmptyInventory is confirmEmptyInventory, and Persist persistProvenance, error
--                        by error. Walk has the loops of history.go, market.go and trades.go:
--                        Walk/Market is fetchMarketHistory (Reach, Backfill are about it),
--                        Walk/History fetchHistory (Ends), Walk/Trades fetchTrades (Offsets).
--   Queries              internal/application/brokerage: list is ActivityService.List, get_holdings is
--                        HoldingService.Get, choose_sync is AccountService.SetSyncEnabled. Paging and
--                        Preference are about it.
--   Clients/Cex          internal/infrastructure/clients/cexcommon/cexcommon.go: split_pair is splitPair,
--                        normalize_fee is normalizeFee, Translate/translate is Translate. Legs is about
--                        it.
--
-- A time is the count of nanoseconds since Go's zero time, so IsZero is a test against 0;
-- durations that may be negative are integers. Integers do not wrap: the counters and times of the
-- program stay below 2^63. float64 is a type parameter, with the operations that the code uses
-- where it computes. A Go map is an association list; where the code ranges over a map, the
-- theorems hold for every order of the entries. The loop of `wait` runs on fuel, and ends with a
-- fuel of 2. `decimal` has fuel 20, since a 64-bit integer has 20 digits at most. Parameters stand
-- for what is not in the repository: the JWT library, the database (GORM with PostgreSQL) and its
-- JSON codec, the clock, UUIDs, SHA-256 and the Unicode case tables. A table of accounts or holdings
-- keeps of a time what its timestamp column does, and GORM writes the default of a column in place of
-- a zero value that is inserted.
--
-- Quotes stands for Steam's CurrentPrice and stalePrice, and SteamTables for the GORM calls of its
-- repository. time.Sub saturates and a negated duration wraps, both as 64-bit code does.
--
-- Not modelled: the HTTP router and handlers, JSON encoding, logging, dependency injection, the
-- ticker loop and shutdown, which are calls of libraries; of Steam, the parsers of its web pages,
-- which are arguments of the walks, and its price feeds; the clients of TON, OKX, IBKR, Futu,
-- Bitget and Hyperliquid, and what Binance and SnapTrade have beside their rate limits; the price
-- services, the reading of the configuration, and the tables of cursors, tokens and prices.
pub mod Prelude
pub mod Domain
pub mod Auth
pub mod Sync
pub mod Limits
pub mod Persistence
pub mod Queries
pub mod Clients
pub mod Steam
