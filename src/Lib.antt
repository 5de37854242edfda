-- ===== src/Lib.antt =====
-- MeetGo dating server: a model of its core, in the tables of its database and the requests on them.
--
-- The program is an HTTP server over PostgreSQL. A handler decodes a request, a service decides, a
-- repository runs SQL. The model keeps these layers. Paths are from the repository's root.
--
-- - Prelude: Boolean tests, lists, SQL on lists of rows (Prelude/Rows, Joins), signed integers
--   (Prelude/Int), and Go strings as lists of code points of valid UTF-8 (Prelude/Texts).
-- - Http: internal/platform/httpx. The error type, the responses, WriteError, DecodeJSON.
-- - Schema: migrations. One record per table; `Db` is the database. UUIDs are 128-bit numbers, times
--   are nanoseconds, float64 values of requests are decimals in millionths (Schema/Decimals), and
--   dates are year, month and day (Schema/Dates). Reference tables are kept in the order of the
--   column `value`.
-- - Exec: what a method is. It reads and writes the database and returns or fails; each round trip
--   may fail by a list of faults, of any length, so a failure may come between any two statements;
--   inTx rolls back. Exec/Keeps and Exec/Triples are the logic of methods, Exec/Runs are requests
--   one after the other.
-- - Auth: internal/auth. Email (dto.go), Token (token.go, middleware.go), Repository, Service,
--   Handler. External has the libraries: sha256, base64, JWT, UUIDs, net/mail, the case table.
--   Proofs: Sessions, Login, Rotation, Race, Otp, Sending, Email/Canonical.
-- - Profile: internal/profile. Ids and Validate (dto.go, photo_dto.go), Repository, Photos
--   (photo_repository.go), Service, PhotoService, Handler. Proofs: Onboarding, Completion,
--   PhotoLimit, Rules, and Reading for what only reads.
-- - Meeting: internal/meeting. Repository, Service, Candidates (likes and chats), Handler. Proofs:
--   OneActive, Chats, Requests, Rows, Likes, Acceptance, Publishing, Rules.
-- - Meeting/Feed: the feed_*.go files. Filters (parseFeedFilters), Cursor, Rows (the SQL of
--   feedPage), Service (Feed, and the handler). A row's distance is in millionths of a kilometre.
--   Proofs: Order, Sorted, Candidates and Pages for the query, RoundTrip, Answers, Scroll and
--   Complete for the cursors, Visible and Offered for what is shown, Bounds for the filters.
-- - Geo: internal/geo. Repository (geo.go), Haversine (haversineKm, over the arithmetic of float64
--   and package math as parameters), Service, Handler. Proofs: Effective and Requests for the
--   rows, Manual, Chosen and Fixes for the two modes, Search, and Errors.
-- - Geonames: cmd/geonames-import. Parse (parseCities), Names (parseRuNames), Import (run). Proofs:
--   Kept, Best, Loaded.
-- - Config: internal/config, with Config/Secrets. Interest: internal/interest. Health:
--   internal/handler.
-- - Tests: the theorems at concrete inputs.
--
-- A request reads each clock once: `Clock` has the server's time.Now() and PostgreSQL's now(), which
-- need not agree. What crypto/rand, gen_random_uuid(), the mailer and the object store give is an
-- argument; the ids that the database generates are checked against the primary keys, and an
-- INSERT that violates a unique index of the migrations fails. Requests run one after the other,
-- except in Auth/Race, which interleaves two refreshes between their reading and their writing.
-- A timestamptz keeps microseconds: where the server's time is stored (the expiry of a code and of a
-- session), the model keeps the nanoseconds that the database cuts off, less than one microsecond.
-- Machine integers (attempts, positions, counts) are small, and are unbounded here. Loops of the
-- source run over lists, so that the model needs no fuel.
--
-- A reader who scrolls the feed makes one request at a time on an unchanged database; the number of
-- requests is fuel, and one more than there are rows is enough, since each page but the last has as
-- many rows as its limit.
--
-- Not modelled: the routes, the server and its middleware for logs, which are glue over chi and
-- net/http; the mailer, the object store, GeoIP, the pool, and the downloads of the import, which are
-- I/O; the generated docs. A foreign key is checked only where a request can break it (a location of
-- an unknown user), since no request deletes what others refer to.
pub mod Prelude
pub mod Http
pub mod Schema
pub mod Exec
pub mod Config
pub mod Auth
pub mod Profile
pub mod Meeting
pub mod Geo
pub mod Geonames
pub mod Interest
pub mod Health
pub mod Tests
