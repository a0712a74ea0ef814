-- ===== src/Lib.antt =====
-- mini_sub2api: a verification library of the Rust core of the gateway, src/core/codex, and of
-- the event classes in src/protocol/v1/rust. The gateway stands between callers of the Responses
-- API and an upstream. It rewrites the identifiers that requests and responses carry, finds the
-- earlier response that a request continues, and forwards the upstream's event stream.
--
-- Carriers (src/core/codex/src/lifecycle_carriers.rs, lifecycle_carrier_*_rules.rs): which fields
--   and headers carry an identity, and what is done with them. Kinds has the enumerations, Rule the
--   rule and its builders, the five *Rules files the tables row by row, Query the functions that
--   select rules, Laws what the tables guarantee.
-- RequestState: Types has the ledger of identities and its limits (request_state_types.rs), WireId
--   `validate_wire_id` (request_state_validation.rs), Prune the removal of entries
--   (request_state_prune.rs). Prune/Descend is the loop over descendants, Protect the test
--   `removable`, Policy the functions of request_state_prune_policy.rs. Wires, Index, Counts,
--   Reach and Traces are about the removal of one entry, Kept, Guard and Outlive about what survives it,
--   Earliest, Selection, Oldest and Scopes about the choice of what to remove. Steps describes pruning as a
--   sequence of removals; Invariants, Totals, Ends and Rounds follow it, Expiry, Result and
--   Evict are about `prune_expired`, `prune` and `evict_one`.
-- Subscription (subscription_index.rs): Radix is the index from paths of item keys to responses
--   (`insert`, `prefixes`), History the chain of blocks that share their parents (`get`, `items`,
--   `hidden_reasoning`, `extend_with_hidden`). Radix/Stored says what an index holds; Split, Insert
--   and Prefixes prove the operations right against it; Index puts them together.
-- Response: Delta (response_delta_ids.rs) finds the identifiers of a flat delta event by the carrier
--   tables; Cache (response_id_cache.rs) keeps translated pairs. Cache/State, Translate and Remember
--   have the state and the operations. Slots, Accounting, Eviction, Bounds and Run are about bytes
--   and the shared budget, Coherence and Correct about what the translations mean.
-- Sse: Progress (sse_progress.rs in src/protocol/v1/rust/src) classifies an event; Payload, Frame and
--   Reader (response_sse_reader.rs) take a byte stream apart into events under three deadlines.
--   Stream is the byte-wise description that Outlook, Rounds and Reading compare the reader with;
--   Tail and Drain are about the deadline after a terminal event, Events and Classes about single
--   events.
-- WebSocket (responses_websocket_state.rs and its child modules): the state of one connection. Types
--   has its enumerations, Interrupt response_interrupt.rs, Reuse responses_websocket_reuse.rs,
--   Equivalence the comparison of items (responses_websocket_projection.rs), Routing the token in an
--   event (subscription_routing.rs), State
--   the record and the operations that fail and reset it; State/Plan plans and starts requests,
--   Output keeps the items of a response and completes it, Observe takes the server's events. Parts is
--   the interface to what it calls. Moves has the operations as steps and the states they reach;
--   Cases, Phases, Orderly and Reached are about the phases, Bounded and Limits about the kept output,
--   Tokens about the routing token, Continued about the requests that continue a cached response.
-- AsciiJson (ascii_json.rs): the JSON formatter that escapes what is not ASCII, and its inverse.
-- Terminal (terminal_detection.rs): the token of the terminal in the user agent, as a function of the
--   environment.
-- Base has the tests on numbers, lists, texts, sets of keys and JSON values that the parts share;
-- Tests applies the theorems at concrete inputs.
--
-- Loops. `Radix::insert` and `Radix::prefixes` run on the length of the path and two rounds more;
-- each round but the first consumes a key. The eviction loop of the cache runs on 66 rounds: each
-- round either ends over the limit and leaves its slot empty, at most 64 times, or is the last
-- but one. The search for descendants runs on a round more than there are nodes, each loop of
-- pruning on one more than there are entries or scopes. `read_all` takes as many rounds of
-- `next_event` as it is given instants for. Every theorem on the other loops says that they
-- return; those on `read_all` name the rounds, or hold for any number of them.
--
-- Numbers are natural numbers. The counter of the cache budget wraps around at 2 ^ 64 where the
-- code's does. Lengths are bytes where the code counts bytes. A JSON object keeps the order of its
-- fields.
--
-- Parameters stand for what is not in the repository: the capacity of a stored text, the size of
-- an empty cache, the parser of JSON, the equality and the length of JSON values, the decoder of
-- UTF-8, the trimming of blanks, the test of header values and the environment. The interface
-- WebSocket/Parts also stands for code of the repository that is not modelled:
-- `ordinary_prewarm_prefix`, `finalize_wire_order`, and the life cycle of a response's output
-- with its compaction (response_output_lifecycle.rs). The theorems on WebSocket hold for every
-- choice of these.
--
-- Not modelled: the editor, the store and the validation of the request state ledger, the
-- WebSocket relay, the life cycle of a response's output and its compaction, request rewriting,
-- tool budgets, the vault, the server and the Go coordinator; the interner and the cost of an
-- index; diagnostics, which nothing reads back; the digest of a cache identity, which only
-- hashes.
pub mod Base
pub mod RequestState
pub mod Carriers
pub mod Subscription
pub mod Response
pub mod Sse
pub mod Terminal
pub mod WebSocket
pub mod Tests
pub mod AsciiJson
