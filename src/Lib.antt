-- ===== src/Lib.antt =====
-- Podium, a leaderboard service in Go over redis: a model of its core and theorems about it.
--
-- The parts, from the bottom up. A redis client (leaderboard/database/redis) wraps go-redis and turns
-- its replies into values and errors. The database (leaderboard/database) stores a leaderboard as the
-- sorted set at its name and the members' times to expire as the sorted set at the name with ":ttl";
-- the keys of the latter are in the plain set "expiration-sets". The service (leaderboard/service)
-- computes pages, windows, percentages and ranks, writes scores, and lets a leaderboard expire by its
-- name (leaderboard/expiration). The handlers (api/leaderboard.go) check requests, call the service
-- and turn its errors into codes. The worker (worker/expiration_worker.go) removes members whose time
-- has come.
--
-- Every operation is a function of a state W that gives an outcome (a value, an error or a panic) and
-- the next state: Base/Effect.antt. The state is that of the server behind go-redis and is a
-- parameter, as is go-redis, the record GoRedis of Redis/Defs.antt; time.Now() is a parameter too.
--
--   Base              lists, texts (lists of bytes), integers, outcomes
--   Go                words of 64 and 32 bits, float64, time.Time, strconv, base64, JSON and Sprintf
--                     of a format without arguments: the parts
--                     that the code uses. A finite float64 is m / 2^k, rounded to 53 bits; the rounding takes at
--                     most 1100 halvings or doublings, more than the exponent of any float64,
--                     and the code makes no float64 that is too large
--   Redis             Defs and Errors are client.go and errors.go, Standalone and Cluster the two
--                     clients, method by method (ZAdd is zadd); Answers, Removes, Increments and
--                     Expiry say what is assumed of the server, Sorted has its sorted sets,
--                     Server is one in memory that meets the assumptions
--   Database          Ranks, Scores and Expiring are the methods of redis.go and
--                     redis_expiration.go (GetMembers is get_members), Redis puts them together;
--                     the theorems are in Served
--   Expiration        Pattern has the four regular expressions, Date the calendar, Name the function
--                     GetExpireAt, branch by branch; theorems in Future, Unix, Periods and
--                     Weeks, with the lengths of years and months in Calendar
--   Service           Members is members.go and leaderboard.go, Pages and Around the operations on
--                     pages and windows, Reads and Writes the others; theorems in the children
--   Worker            one tick, with the events that it sends, Run and Stop with their channels in
--                     Run, the making of a worker in Setup; theorems in Events, Served, Swept
--                     and Run
--   Api               the handlers: Upsert, Remove, Single, Many; theorems in Expired, Found and
--                     NotFound, and in Again on one after another. Middleware is the chain in
--                     front of them, Endpoints the answers over HTTP, Configure, Ready and Start
--                     the life of the application; theorems in Middleware/Passed, Configured and
--                     Ready
--   Client            client/client.go: Defs has sendTo, Urls and Calls the operations, Answers what
--                     they decode, Setup NewPodium; theorems in Sent, Ids, Places and Asked
--   Board             a map of scores that the service refines; its commands are calls of the service
--   Cmd               Smoke is cmd/smoke.go, with the theorem in Passes; Start has the commands of
--                     cmd/start.go and cmd/worker.go, with a theorem in Served
--   Config, Log       config/config.go over viper, log/log.go over zap
--   Tests             the theorems on a leaderboard of three members, and parts run
--
-- The client's net/http, the middlewares of gRPC, viper, zap and the tracers are records of functions,
-- parameters of what uses them. Goroutines that wait for each other appear in Worker/Run only, as a
-- relation on one step of either goroutine or of their environment.
--
-- A pointer that may be nil is an Option, and its use is a panic. Members that a function changes in
-- place are part of its result. Integers wrap at 64 and at 32 bits where the code converts. Loops are
-- structural recursion; the only fuel is that of the roundings above, of the printing of numbers, whose
-- round trip is proved, and of the parsing of JSON, where four rounds for each byte are given and each
-- byte takes at most three.
--
-- Not modelled: the registration of handlers with the servers, the flags of the commands, mocks,
-- generated code and the helpers of tests. Other clients of the same server come between the calls of
-- one operation in no theorem.
pub mod Base
pub mod Go
pub mod Config
pub mod Log
pub mod Redis
pub mod Database
pub mod Expiration
pub mod Service
pub mod Worker
pub mod Api
pub mod Client
pub mod Board
pub mod Cmd
pub mod Tests
