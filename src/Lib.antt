-- ===== src/Lib.antt =====
-- Device Bound Session Credentials for Python (src/dbsc): the server side of a protocol that binds
-- a login session to a key that the browser keeps on the device.
--
-- The program. A login makes an offer (`build_registration_header_response`); the browser answers
-- it with a JWT signed by a new device key (`register`), which stores a `Binding`. The bound cookie
-- lives for minutes; to renew it the browser signs the stored challenge (`refresh`), after a 403
-- that carries it (`issue_refresh_challenge`) or a header on an ordinary response
-- (`advertise_refresh_challenge`). The application's gate compares the presented cookie
-- (`bound_cookie_matches`) and ends sessions (`revoke`). All state is in a `Store`, written by
-- conditional writes; the server itself keeps none.
--
-- Which file models which part:
--   Base           shared names; Base.Text the strings, as lists of code points; Base.Int integers
--   Exceptions     src/dbsc/exceptions.py, and results of code that may raise
--   Encoding       `str.encode` and `constant_time_equals` of src/dbsc/_json.py
--   Json           JSON values; Json.Dumps `dumps` of src/dbsc/_json.py, Json.Reader
--                  `loads_object` of a text, by Json.Strings and Json.Numbers, Json.Bytes of bytes
--   Regex          patterns, an executable `fullmatch`, and the texts that a pattern describes
--   Validate       src/dbsc/_validate.py: Validate.Patterns the patterns, Validate.Hosts the hosts
--   Pending        src/dbsc/pending.py
--   Binding        src/dbsc/binding.py: the record, its validation and its rotations;
--                  Binding.Record, as Pending.Record, its stored form
--   Audit, Response, Scope, Config, Request    the files of these names in src/dbsc
--   Jwt            src/dbsc/jwt.py: its data, and the verifier as an interface; Jwt.Verifier its
--                  implementation over the `cryptography` package, Jwt.Base64 the decoding
--   Effect         the methods' calls of the store, the clock, `secrets` and the audit log:
--                  a `Program` is a tree of calls with a branch for each answer. Ensures states
--                  what holds at the end of every run, Under at the end of those whose answers
--                  meet a condition, Every what holds of every call, Points what holds wherever
--                  a run may stop because the host's code behind a call raises
--   Server         src/dbsc/server.py, one program per method: Registration, Challenge, Refresh,
--                  Gate, with the parts they share in Messages and Instructions. A method is
--                  split where its checks end, and each part is named for what it does
--   Store          src/dbsc/store.py: what `Store` promises, as the answers and the effect of each
--                  call on a view of what is stored under each session id; Store.Memory is
--                  `InMemoryStore`, an implementation
--   System         concurrent requests over such a store: each step is one call of one request,
--                  or the arrival of a request, or the expiry of records; System.Deployed is
--                  the same over an implementation of the store, which reads its own clock,
--                  and System.InMemory over `InMemoryStore`
--   Demo           examples/demo_server.py: its response, the gate of its protected page and
--                  its registration and refresh endpoints
--   Tests          the theorems at concrete requests
--
-- How the code corresponds. Python's `int` is the integers and `str` a list of code points, lone
-- surrogates included. A raise is a value of `Result`, with the class and the message. A header or
-- cookie map is an association list, in which the first entry of a name counts; the headers' names
-- are in lower case, as `RequestContext` leaves them. An answer of a call is free: a theorem about
-- a program holds for every answer, a wrong one included, unless it names the contract of `Store`
-- or a condition on the answers.
-- A read and a conditional write of the store may raise, as their answers say. A reading of the
-- clock, a draw of random bytes, an audit report, a put and a deletion are answered in the model,
-- while the host's own clock, logger or store may raise there; no `try` of the server stands around
-- such a call, so the run then ends with what it has called so far. Effect.Points describes these
-- moments by the calls that a run reaches; a statement that does not name such calls is about runs
-- in which they are answered.
-- A record of `InMemoryStore` counts up to and including its time of expiry. Over that store, a
-- run of System.Deployed writes only valid and storable records, and its readings of the clock do
-- not go back. Elsewhere the clock may go backwards. The loops of `refresh` and
-- `issue_refresh_challenge` make three attempts, as `_MAX_UPDATE_ATTEMPTS` says, so their fuel is
-- the code's own bound. A decimal number of n is printed on fuel n + 1, which is more than its
-- digits. A JSON text is read on fuel twice its length and one: a call takes one, and a second one
-- in a row has read a character. The nesting at which the interpreter raises `RecursionError` is
-- the parameter `depth`.
--
-- Not modelled: the login and logout routes, the file-backed store and the transport of
-- examples/demo_server.py; scripts, and the tests, which use the library; the
-- `cryptography` package, whose calls are the record `Cryptography`, with an exception that the
-- code catches as `none` or `false`; whether a comparison takes constant time; a stored record
-- that is bytes and not a text; the values of floats, which the code does not use; the refusal of
-- `dumps` to print an integer of more than 4300 digits.
-- `repr` of a text in the messages of `host_patterns` is a parameter.
pub mod Base
pub mod Exceptions
pub mod Regex
pub mod Encoding
pub mod Validate
pub mod Json
pub mod Pending
pub mod Binding
pub mod Audit
pub mod Response
pub mod Jwt
pub mod Scope
pub mod Config
pub mod Request
pub mod Effect
pub mod Server
pub mod Store
pub mod System
pub mod Demo
pub mod Tests
