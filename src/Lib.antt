-- ===== src/Lib.antt =====
-- Shimpz Admin, the loopback-only Supervisor console of a Local Shimpz Space: the state that its
-- backend keeps in memory or in one stored record, and the rules by which it admits, orders and ends
-- work. The backend is a web server; a browser tab signs in, opens a session socket and sends calls
-- and chat turns over it.
--
-- The parts and how they meet:
--   Signin.Totp (backend/src/signin/totp/mod.rs) is the one-time-code factor that a sign-in checks
--     after the password: its validation, its lock after refusals and its record of the last step.
--   Signin.Recovery (backend/src/signin/recovery/mod.rs) is the set of single-use codes that admits
--     a new enrollment of that factor when it is lost.
--   Signin.Tickets (backend/src/signin/tickets/mod.rs) are the one-use tickets that carry a checked
--     password to the second factor or to a step-up, bound to a session and a socket.
--   Signin.Sessions (backend/src/signin/sessions.rs) tracks the issued sessions: idle ends, capacity
--     evictions, and what the listeners hear of them.
--   Signin.Password (backend/src/signin/password/mod.rs) is the password's policy, its verifier, and the
--     limiter that admits one derivation at a time and locks after repeated rejections.
--   Signin.Passkeys (backend/src/signin/passkeys/mod.rs) is the RP id of an origin, and the one-use
--     challenges of passkey ceremonies. Signin.Token (backend/src/signin/token/mod.rs) is the signed
--     token of a session that Signin.Sessions tracks.
--   Record (backend/src/record/mod.rs) is the private store and its transaction: read, change, journal,
--     write, and end every session whose secret changed. Record.State (backend/src/record/classify.rs)
--     is the authentication state of the stored record; Record.Factors, Record.Credentials,
--     Record.Operations and Record.Passkeys (backend/src/record/factors.rs) are the changes of the
--     Supervisor's factors, over Signin.Password, Signin.Totp, Signin.Recovery, Signin.Passkeys and
--     Signin.Token, and the operations that make them in one transaction. Record.Resets
--     (backend/src/record/identity.rs) consumes host reset capabilities.
--   Signin.Audit (backend/src/signin/audit/mod.rs) is the durable journal of authentication events: its
--     rotation, its sticky failure, and the previous sign-in that it shows.
--   Session.Budget (backend/src/session/budget.rs) limits, per session, socket opens, calls and
--     channel changes in a sliding minute, and restarts of the idle time.
--   Session.Registry (backend/src/session/registry.rs) holds the open sockets of each session, and
--     closes those of a session that Signin.Sessions ends.
--   Session.Outbound (backend/src/session/outbound.rs) is the queue of frames of one session socket:
--     bounded in bytes, with change notices coalesced by topic.
--   Session.Topics (backend/src/session/topics.rs) counts the changes of what the screens show; its
--     listeners put the notices that Session.Outbound coalesces.
--   Chat.Gate (backend/src/chat/gate/mod.rs) admits the Space's chat operations up to a limit that
--     Team reports: slots, the waiting line and the places it tells, resting and limit reads.
--   Chat.Run (backend/src/chat/run/mod.rs and relay.rs) is one Team's chat run: the pages that watch it,
--     the steps that it shows them, the frames that wait for its loop, and its end.
--   Team.Order (backend/src/team/order.rs) arranges the list of Teams by the saved order, saves a new
--     order, drops a deleted Team's position, and removes the file on a Space reset.
--   Lanes (backend/src/lanes/mod.rs) runs jobs detached, a bounded number at once and a bounded number
--     admitted; the history and the chat's Team calls submit their work to lanes.
--   Time.Calendar and Time.Isoformat (protocol/team/http/src/python/datetime.rs) read the datetimes of
--     Team's messages; Time.Instants and Time.Texts (backend/src/time/format/mod.rs) write and read the
--     UTC instants of the journal, the history and the release status.
--   Protocol.Origin (protocol/team/http/src/websocket/mod.rs) is the canonical form of an Origin.
--   Protocol.Base64 (protocol/team/http/src/python/base64.rs) encodes and decodes keys.
--   Prelude holds texts as byte lists, maps as association lists with distinct keys, and integers.
--
-- How state and operations correspond. Each operation is one function that takes the state that the
-- code keeps behind a mutex and returns the new one with the code's answer; one call is one critical
-- section. In Chat.Gate, what is told to callbacks after the lock is a returned list, and
-- Chat.Gate.System turns the critical sections of acquire, Held, WaitGuard, Resting and Reading into
-- events of a step function over counts of operations in each phase, so that every interleaving is a
-- list of events. In Session.Budget.Admitted and Session.Outbound.Delivery runs are lists of
-- requests, of puts, closes and takes. In Lanes each step of a spawned task is an event, and Reached is
-- the relation of the lanes that follow one another by events in any order. In Chat.Run a page is a
-- number, its identity, and whether a page's socket takes an event is an argument; what a dispatch did
-- to the work under way is an argument of the step that ends it, and so is whether it found its
-- page disconnected. A loop that is aborted is over at once, and drops its receiver with the frames that
-- wait there; Chat.Run.Traces makes events of what happens to a run. In Signin.Audit the disk is the journal
-- with its two backups, and whether each effect on it succeeds is an argument.
-- In Record the stored JSON object is a record of its members, with what a member is that has another
-- shape; the effects of the file system and of the journal are arguments, and the change that a
-- transaction makes is a function of its own. Record.Phases.Invariant.Change lists those changes with
-- what they draw. The limiter's runs are lists of events with the time that passes between them.
--
-- Bounds and fuel. The eviction loop of Signin.Sessions runs on the number of entries, of which every
-- round removes one. The loops of Time.Calendar that look for a year and a month run on 400 and 12
-- rounds, the years of a cycle and the months of a year; those of Time.Isoformat that scan digits run on
-- the text's length, and the decimal digits of Time.Texts on twenty. All other loops are structural.
-- The monotonic clock does not go below 0, so its
-- times are natural numbers; a difference that the code would find negative is 0, which every test
-- treats alike. The count of running operations is a natural number, since a slot is given back only
-- by a holder. The wall-clock sums of Signin.Totp wrap at 64 bits. The gate's waiter numbers and
-- the order of registrations, which are 64-bit counters of one process, do not wrap here. The
-- 32-bit fields of a date are natural numbers, since no text has a negative one; the 64-bit seconds and
-- days of Time.Instants are integers. The 32-bit buffer of Protocol.Base64 drops its high bits.
--
-- A word is taken out of a password in as many rounds as the text has characters.
--
-- Parameters. Unicode normalization, case folding, the blocklist, the test of an IPv4 address and the
-- signature of a token are functions. What Chat.Run asks of JSON values is a record of functions.
-- The SHA-256 digest of a session token, HMAC-SHA-1, scrypt, base32, hexadecimal and the
-- lower-case mapping come from libraries or from code that Python's tables define; the tokens and
-- secrets that are drawn at random and the clocks' readings are arguments.
--
-- Not modelled: the HTTP server and the ceremonies that its routes make of these parts, the store's
-- signing keys and model keys, the option documents that a passkey ceremony shows a browser, the Team
-- transport, the SQLite history, files and processes, which are input and output; the user interface; the
-- JSON admission library, of which only the kinds of value that Signin.Totp and Signin.Recovery tell
-- apart appear.
pub mod Prelude
pub mod Time
pub mod Protocol
pub mod Lanes
pub mod Chat
pub mod Session
pub mod Signin
pub mod Record
pub mod Team
