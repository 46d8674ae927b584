-- ===== src/Lib.antt =====
-- go-sessions: HTTP sessions for Go, the package at the repository's root, with its databases under
-- sessiondb/.
--
-- A request comes to the manager (sessions.go), which reads the session's id from a cookie
-- (cookie.go, config.go) and asks the provider (provider.go) for the session. The provider keeps the
-- sessions of the process in a table; for an id that it does not hold it makes a session
-- (session.go), loads values for it from the registered databases (database.go) and starts its
-- lifetime (lifetime.go), whose timer calls the provider's Destroy. A session keeps its values in a
-- store (memstore.go) and tells the databases of each change in a payload.
--
-- The files, and the code that each is about:
--   Base             shared names, tests on numbers, lists, Go strings, integers, and the endings
--                    of a call: it returns, it panics, or it waits for ever on a mutex
--   Value            the Go values that a store holds, with slices and maps on a heap
--   Strings, Strconv what the package uses of these packages of the standard library
--   Memstore         memstore.go: Entry, Store and the typed getters (Access); below it what Save,
--                    Remove and Value guarantee
--   Lifetime         lifetime.go: Begin, Revive, Shift, ExpireNow, HasExpired over a list of timers
--   Database         database.go: the interface, the payloads and their pool
--   World            the state that the calls share: sessions behind pointers, the provider's
--                    table, the mutexes, the pool, the heap, the databases and the clock
--   Session          session.go: each method, with Lock and Unlock as steps (Values: the typed
--                    getters); below it what it tells the databases, and the lives of the mutex and
--                    of flash messages
--   Provider         provider.go: loadSessionFromDB, Init, Read, Destroy, DestroyAll,
--                    UpdateExpiration, and `fire`, the call of a timer
--   Cookie, Config   cookie.go with the steps of updateCookie on domains, and config.go
--   Sessions         sessions.go for net/http, and Sessions/Fasthttp for fasthttp
--                    (Default: the functions of the package, on the variable Default)
--   Program          the calls of handlers and timers, one after another, as one program that runs
--                    (Owners and Steady: what each call keeps; SessionCalls and
--                    ProviderCalls: that it does).
--                    Provider/Concurrent runs several requests inside Read at once, step by step,
--                    and Session/Concurrent several handlers inside Set, between its use of the
--                    mutex and what it tells the databases; Session/Section is the part that Set
--                    does under the mutex, with Lock, the read, the write and Unlock as steps
--   Sessiondb        what the databases share, with the goroutines of Async; below it
--                    sessiondb/boltdb, leveldb, badger, redis and file: the constructors, Load,
--                    Sync, Cleanup and Close. Redis/Client and Redis/Dial are sessiondb/redis/service,
--                    and Server is what a redis server promises
--   Clients          what a client sees of the sessions, where there are no databases: each call on
--                    the entries under every id, by id and key
--   Applications     the servers of _examples that keep sessions in memory: Overview and
--                    Standalone, each with an account of it that knows no sessions, Securecookie
--                    and FlashMessages
--   Examples         the theorems at concrete inputs
-- An operation has the name of its Go method in snake case. A method that changes state is a
-- function from a World to its ending, which carries the World by then.
--
-- Choices: a time.Time is a number of nanoseconds since the zero time, and a call that reads the
-- clock twice finds it a `tick` later, of any length; for the timers and databases the time stands
-- still during a call. A value of the type int or int64 is an integer; the code only stores,
-- parses and compares them. A pointer to a session is an index. All loops are structural, over the
-- list that the code ranges over, so there is no fuel. What a map visits in some order is visited
-- in the order of a list.
--
-- Parameters: encoding/gob, the key-value libraries, the connection to redis, the file system,
-- fasthttp, the id generator, and Encode and Decode of the configuration. So is what bolt's cursor
-- gives while pairs are deleted through it, of which the library promises nothing. Of gob, only
-- values that are no references are assumed to come back. What a theorem needs of them is a
-- hypothesis, and the examples give an instance.
--
-- Not modelled: what is logged, the rounding of parsed floats, what redis removes when an expiry
-- is due, the errors of a bolt transaction or a leveldb iterator as a whole, the routing and the
-- writers of net/http, the examples for fasthttp and the databases, and the libraries under
-- vendor/. The requests to a server of Applications come one after another, with no timer fired
-- between them. A program of Program runs one call after another, and Provider/Concurrent and
-- Session/Concurrent interleave Read, and Set, between their uses of the mutexes; a read without a
-- lock is one step. Other calls inside one session at once are not modelled, beside the mutexes
-- that a call finds taken. The stores of a session and of a payload are values, while in Go they
-- can share the array of a slice, which Save changes in place: the goroutines of Async take what
-- that array shows when they run as a parameter, `shown`, and the other calls are about values.
mod Base
pub mod Value
pub mod Strings
pub mod Strconv
pub mod Memstore
pub mod Lifetime
pub mod Database
pub mod World
pub mod Session
pub mod Provider
pub mod Cookie
pub mod Config
pub mod Sessions
pub mod Sessiondb
pub mod Program
pub mod Clients
pub mod Applications
mod Examples
