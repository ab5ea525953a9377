-- ===== src/Lib.antt =====
-- The AXIAM Python SDK (src/axiam_sdk): the parts that decide what a message, a token or a decision
-- is worth, modelled as executable functions, and the theorems that make them correct.
--
-- The parts and where they are modelled, with paths under src/axiam_sdk:
--
-- Amqp (amqp/_consumer.py, amqp/_replay.py, amqp/_hmac.py). `consume` receives deliveries and gives
--   each to `_on_message`, which verifies the signature (verify_hmac), parses the body, runs the
--   replay protection (validate_freshness) against one NonceStore for the whole loop, calls the
--   handler and settles. Amqp.Consumer.on_message is that handler on the store, and serve the loop.
-- Reactor (amqp/_reactor_registry.py, amqp/_reactor_router.py, amqp/_reactor_protocol.py,
--   amqp/_reactor.py). The registry of hookable events, the allow-lists of their patches, the composed
--   failure policy, the router from event to handler, in Protocol the check of an event and the
--   signed reply, and in Dispatching the runtime's path of one delivery: verify_event, the nonce
--   store, the handler, and the answer that is published or withheld.
-- Ssf (ssf/_receiver.py). A SET is parsed (Parse), its key looked up through the JWKS cache (Keys,
--   KeyLookup), judged (Judge) and recorded in the replay store (Store); Verify joins the steps, and
--   Poll is the batch of one poll, and Polling the whole of poll: the request with its retry (Retry),
--   the reply and the batch. The clients call verify_set and poll.
-- Webhook (webhook/_verify.py). The signature header and its check.
-- Retry (_retry.py), DecisionMemo (_decision_memo.py), RefreshGuard (token/refresh_guard.py): what
--   the REST clients run around a call: the bounded retry, the memo of decisions, and the
--   single-flight refresh of the token, with the threads and tasks that share its lock as a step
--   relation (RefreshGuard.Lock).
-- OidcState (_oidc_state.py), RevocationFeed (_revocation_feed.py): the login states of the framework
--   glue, and the revocation feed of the guards.
-- Manifest (management/manifest/_spec.py, _plan.py, _engine.py). The desired shape of a tenant: its
--   specs, validate with the topological order of the resources (Validate, Order), the plan and the
--   report (Plan), the computation of the steps from a snapshot (Compute, Models), their run and its
--   stop at a failure (Engine), and the plan and apply of the API (Api). apply calls validate, reads
--   the snapshot, computes the steps and executes them.
-- Paging (management/_page.py). The pages of a management read: the request and its query, the page,
--   and collect_pages, which concatenates every page, for so many turns; the number of the rows and one
--   more are enough (Complete).
-- Ciba (_ciba.py, and ciba_await of _client.py). The backchannel authentication: the members of a
--   request, the check of a ping, and the loop that polls until a request is decided, on a clock that
--   a sleep moves by what was asked and more, and a poll by what it takes; one turn for each second to
--   the deadline is enough (Schedule).
-- Shared: Base (tests on numbers, lists, integers), Dict (a Python dict), Expiring (a dict whose
--   entries expire, against the history that it stands for), Text (str), Json (parsed JSON), Runtime
--   (Python's library and PyJWT as parameters). Tests applies the theorems to concrete inputs.
--
-- How the state and the calls correspond: an object of the SDK is a record, a method a function from
-- the record to the record and the answer, and an exception a value. A clock is the numbers that a
-- call reads, in the order in which it reads them. An HTTP answer, the answer of a handler, of
-- do_refresh and of a replay store are arguments.
--
-- Bounds and simplifications: times are natural numbers in one unit, milliseconds in Ciba,
-- microseconds in Retry, DecisionMemo, OidcState, RevocationFeed and Webhook, and a jitter draw
-- is in thousandths; the SDK uses floats. A fetch of the JWKS reads the clock once. A clock does
-- not read less than zero. The asynchronous twin of a method does the same steps with awaits and
-- is modelled by the same function. str.lower is taken on ASCII. A key of the JWKS is its entry,
-- and what PyJWT says of it a parameter. Each loop is structural recursion on its list or on the
-- attempts that are left, but for the walk up the parents in Manifest.Order, whose fuel is one
-- more than the number of keys: a walk that is longer meets a key twice
-- (topological_order_finishes). The endpoints of the management API are a server, a function of a
-- request and a state. Where a theorem speaks of the
-- ids that a replay store answered to be new, they are noted beside the store (Ssf.Store.logged), and
-- the batch is the same (Ssf.Poll.Logged). _compute, plan and apply take a manifest without a network
-- section, which is an argument of their definitions.
--
-- Not modelled: the generated models and operations under management, the generated gRPC stubs, the
-- HTTP, gRPC and AMQP connections themselves, the Django and FastAPI adapters, the WebAuthn, OPAQUE
-- and TLS wrappers, since they are I/O or calls of other libraries; and the reactor's reconnect
-- loop, the request of one CIBA poll and its signer, _jwks.py, _oidc_idtoken.py, _dpop.py, _mcp.py,
-- _errors.py, and of the manifest the network section's plan, the reads and the declarative loader.
mod Base
pub mod Dict
pub mod Expiring
pub mod Text
pub mod Json
pub mod Runtime
pub mod Retry
pub mod DecisionMemo
pub mod RefreshGuard
pub mod Ssf
pub mod Amqp
pub mod Webhook
pub mod Manifest
pub mod OidcState
pub mod Ciba
pub mod Paging
pub mod RevocationFeed
pub mod Reactor
pub mod Tests
