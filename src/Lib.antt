-- ===== src/Lib.antt =====
-- Verification of boom-gw, the gravitational-wave event broker: the clustering of pipeline events
-- into superevents, their recovery at a restart, the access layer of the HTTP API, and its session
-- tokens.
--
-- The program and its parts. A pipeline event (`GwEvent`, src/event.rs) reaches the clusterer,
-- whose `SupereventCreator` (src/clustering.rs) groups events whose times are within half a window
-- of a superevent's centre. The clusterer stores the open superevents in Redis and recovers them
-- when it starts (src/state.rs); it records and publishes each update, asks the BAYESTAR service
-- for sky maps and attaches the results (src/bin/gw_clusterer.rs, src/localizer.rs). Triggers of
-- gamma-ray bursts are matched with superevents (src/crossmatch.rs, src/pvalue.rs). An operator
-- publishes the alert of a superevent (src/alert.rs). The HTTP API authorizes each request by an
-- `AccessContext` that is read from the documents of users, roles, groups and streams
-- (src/access.rs, src/archive.rs, `access_ctx` of src/api.rs), and its administration handlers
-- (src/access_api.rs) change these documents.
--
-- The files.
--   * Base: shared names; Boolean tests on numbers, lists, floats as an interface, and
--     `std::collections::BTreeMap` as an ordered association list.
--   * Clustering: Defs is src/clustering.rs (process, cleanup_before, attach_skymap,
--     find_closest_t0, allocate_id, from_persisted); Ids is the format "S{:06}" and its reading;
--     Invariant says when a creator is well formed; the other files are named for the operation
--     whose properties they prove; Run is a whole history of calls.
--   * State: the Redis commands of save_to_redis and clear_in_redis and the reads of
--     load_from_redis; Sequence is next_seq_from_ids; Server is Redis as a parameter, with what
--     its commands do; Restart is on a restart.
--   * Access: Mongo is the database driver as a parameter; Docs the documents and the vocabulary;
--     Exec the handlers as actions that end with a value or a response; Archive the methods of
--     src/archive.rs; Context is src/access.rs; Detail, Users, Groups, Members and Streams are the
--     handlers of src/access_api.rs; Triple and Frame are the rules to reason about actions; the
--     remaining files are named for the operation or the guard whose properties they prove.
--   * Localizer: the messages of src/localizer.rs. Clusterer is src/bin/gw_clusterer.rs: World the
--     services and the trace of the calls, Archiving the best-effort calls, Handler `process_event`
--     and `drain_localize_results`, Main the start, the loops of `main` and `drain_until_quiet`,
--     Replay `load_replay`; Keeps and Runs are on the creator, Trace, Settled and Requests on what
--     a handler has done, Documents (src/archive.rs) and Centres on the archived superevents,
--     Recovery on a restart, Waiting on the last wait, Replayed and Earliest on the replay.
--   * Auth is src/auth.rs: Config the policy, the claims and the JWT library as a parameter, Keys
--     the cache of signing keys, Validate `validate_token`, Middleware `auth_middleware` and the
--     gates; Accepted, Refreshes, Rotation and Passing are on what they let through.
--   * Envelope: src/envelope.rs and src/event.rs; Document follows a document from its message to
--     the localize request.
--   * Alert: src/alert.rs; Handler is `create_alert` of src/api.rs, Publishing is on who may
--     publish and what is recorded of it, Latest on the annotation that an alert carries.
--   * Crossmatch: the joint rates of src/crossmatch.rs and src/pvalue.rs; Pvalue is
--     `empirical_pvalue`, Matching `cross_match`; Answers and Counted are on what the two give.
--   * ScienceFilter: the confidence tiers of src/archive.rs; Tiers is on the tier that is chosen.
--   * Session: mint_session, verify_session and the cookies of src/session.rs; Claims is the JWT
--     library as a parameter, Text the joining and splitting of scopes.
--
-- How state and operations correspond. A `&mut self` method takes the record and returns it beside
-- its result; a panic is `none`. A handler is a function of the database that returns the response
-- and the database; every database operation asks `Env.fails` at its turn, so that any of them may
-- fail, and reads the clock and fresh identifiers from `Env` at the same turn.
--
-- A call of a service of the clusterer is an attempt in a trace, of which any may fail.
--
-- Bounds. `u64` is written with its wrap-around at 2 ^ 64. Only `drain_until_quiet` runs on fuel,
-- one unit for each round: as many rounds as the clock takes to reach the deadline, and one more,
-- are enough. The decimal digits of a number take the number itself as a bound on their count.
--
-- Parameters. `f64` is an interface (Base/Floats), and the laws ask for an order without NaN in
-- which differences grow with the distance. MongoDB, Redis, JWT, the fetch of signing keys, the
-- JSON encoding, base64, the LIGO-LW event type, sky regions and random generators are parameters
-- with the documented behaviour that the code relies on as named laws, each with a concrete
-- instance.
--
-- Not modelled. Handlers run one after another, and the texts of errors are without the parts that
-- name a value or a library's error. HTTP, Kafka and the process wiring of src/bin, the parsers of
-- external alerts, the geometry of sky maps, sign-in, the web client and the BAYESTAR service.
pub mod Alert
pub mod Crossmatch
pub mod ScienceFilter
pub mod Auth
pub mod Base
pub mod Clusterer
pub mod Clustering
pub mod State
pub mod Access
pub mod Envelope
pub mod Localizer
pub mod Session
