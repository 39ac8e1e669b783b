-- ===== src/Lib.antt =====
-- purple-wolf, a web application firewall that runs as a Traefik plugin, with a relay that delivers its
-- audit events to webhooks.
--
-- Parts and files
--   Detectors: the groups, severities, verdicts and the engine of
--     crates/purple-wolf-core/src/detectors/mod.rs, and the modes of crates/purple-wolf-core/src/config.rs.
--     Detectors/Structural, Detectors/Signatures and Detectors/Injection are the three detectors without
--     state of crates/purple-wolf-core/src/detectors/, over the fields of the request. The matches of the
--     aho-corasick automaton, the answers of libinjection and the lossy UTF-8 conversion of a preview are
--     parameters.
--   Request: crates/purple-wolf-core/src/request.rs. One percent-decoding pass with its lossy conversion
--     is a parameter. The loop of the iterator's `next` runs on fuel: its phases only move forward, so
--     five rounds are enough. Request/Client is `client_ip`, where parsing an address is a parameter.
--   Policy: `decide` of crates/purple-wolf-core/src/policy.rs, which takes the verdicts of the engine.
--     `partition` is its first loop, `worst_index` its index loop, `swap_remove` that of `Vec`.
--   Reputation: crates/purple-wolf-core/src/detectors/reputation.rs. Reputation/Lru is
--     `LruTokenBuckets` with its slab, its doubly linked recency list and its hash map, a function per
--     method; Reputation/Lru/Spec is the list of buckets that it promises. Reputation/Detect is the deny
--     list and the detector.
--   Config: the types, defaults and `validate_labels` of crates/purple-wolf-core/src/config.rs. An error
--     is a value with what its message names.
--   Audit: `AuditEntry` of crates/purple-wolf-core/src/audit.rs.
--   Traefik: the guest crates/purple-wolf-traefik. Traefik/Body is `drain_body` of src/host.rs, over the
--     list of the reads that the host answers; its result is `none` when that list ends before the loop.
--     Traefik/Host is the reading of values of unknown length in the same file; a host call is a function
--     from its number and the limit to its answer. Traefik/Abi are the wrappers around the host's calls.
--     Traefik/Peer is `parse_ip` and Traefik/Entry are `state` and `inspect` of src/entry.rs, for a host
--     given by its answers; the detector of a group is a parameter of the state, so what is shown holds
--     for any detectors. `inspect` joins Request, the engine of Detectors, Policy and Body. Traefik/Guest
--     are the detectors that `engine` builds, and `handle_request`, for one request and for a list of them,
--     over the wasm target, where a panic does not return.
--     Traefik/Adapter is `parse` of src/config.rs from the record `Raw`, which the derived serde reader
--     gives, on: the lenient scalars (Traefik/Scalar), the defaults and the checks.
--   Relay: the relay crates/purple-wolf-relay. A line of a log goes through the files below in this order.
--     Relay/Tail: the loop of src/sources/log_tail.rs, a function from its variables and what a turn meets
--       to the next variables; a run is a list of turns, so no fuel is needed.
--     Relay/Parser: src/parser.rs, over the bytes of the line. The UTF-8 test, the JSON parser and the
--       lookups in a JSON value are parameters. Relay/Parser/Objects has the grammar of balanced objects.
--     Relay/Enrichers: src/enrichers; Relay/Enrichers/Cache is the cache of the HTTP enricher. What an
--       upstream answers is an argument. The loop of `put` that makes room recurs on the queue.
--     Relay/Envelope: src/envelope.rs.
--     Relay/Glob and Relay/Filter: `Glob` and `CompiledFilter::matches` of src/subscribers/filter.rs.
--     Relay/Pipeline: `process_one`, `take_labels` and `fan_out` of src/pipeline.rs. A subscriber's channel
--       is the list of the envelopes in it, with its room and whether its receiver is there. It joins
--       Parser, Enrichers, Envelope and Filter. Counters are the lists of their increments.
--     Relay/Delivery: the sink of src/subscribers/http.rs, with Relay/Retry for src/subscribers/retry.rs and
--       Relay/Dlq for src/subscribers/dlq.rs. The answers to the attempts are a list; the loop gives `none`
--       where it ends first, and a list as long as the number of attempts is shown to be enough.
--     Relay/Config: the types, defaults and `validate` of src/config.rs; the environment, files and host
--       name are arguments. Relay/Admin: the routing and the token check of src/admin.rs.
--     Relay/Start: the first half of `run` of src/pipeline.rs, which makes the enrichers, the subscribers with
--       their sinks, and the sources (Relay/Sources) of a validated configuration. The room that a channel of
--       tokio takes, and whether a client and a cache can be made, are arguments; beyond them the code panics.
--     Relay/Supervisor: its second half, from the moment that the tasks are spawned, as a step relation between
--       states of the tasks and of the supervisor. A run is a sequence of steps in any order, so every
--       interleaving is one. Relay/Tasks is what tokio says of tasks and of sets of them.
--     Relay/Stop: `run` of src/lib.rs, which joins the pipeline with the admin server and the signal, and the
--       exit code of src/main.rs.
--     Relay/Request and Relay/Signer: the request of a delivery attempt in src/subscribers/http.rs and its
--       signature in src/signer.rs; Relay/Request/Accepted has a subscriber as docs/webhook-protocol.md wants it.
--     Relay/Stdin: the loop of src/sources/stdin.rs. Relay/Enrichers/Url: the URL of the HTTP enricher.
-- Not modelled: the serde derivations; the vendored libinjection; the guest's writes to the host; what tokio
--   does, but for the states of tasks; HMAC-SHA256, hex and percent encoding (parameters); metrics' text format;
--   the JSON and YAML readers of the relay's configuration; the sockets of the admin server.
--
-- Conventions
--   A text is the list of its UTF-8 bytes. An index out of range, where the source panics, is `none`.
--   `usize::MAX` is 2^64 - 1; a slab index never reaches it, by the hypothesis on the cap.
--   A clock reading is an argument, in nanoseconds. `f64` arithmetic is a parameter (Reputation/Float),
--   and so are the type of addresses, its equality and its `Display`.
--   A mutex is a flag that says whether it is poisoned. `debug_assert!` and log lines are left out.
pub mod Prelude
pub mod Detectors
pub mod Request
pub mod Config
pub mod Policy
pub mod Reputation
pub mod Audit
pub mod Traefik
pub mod Relay
