-- ===== src/Lib.antt =====
-- The verification library of Cartridge Runtime.
--
-- The program hosts WebAssembly cartridges. Modelled here are parts of its own core logic:
--
--   Storage   crates/cartridge-storage/src/lib.rs, the in-memory backend of the key-value storage.
--             Storage/Types has the data, Storage/Validate the checks of names, keys, limits and
--             transactions (`validate_key`, `validate_mutations`, ...), Storage/Mutations
--             `apply_mutations`, and Storage/Memory the operations of `MemoryStorage` (`prepare`,
--             `get`, `put`, `delete`, `list`, `usage`, `revision`, `compare_exchange`,
--             `apply_batch`), with `snapshot_state` and `load_namespace` in
--             Storage/Memory/Snapshots. An operation that writes returns its result and the state
--             that it leaves, the state beside an error too. Storage/Memory/Requests gathers the
--             writing calls in one type, so that histories of calls are lists.
--   Rolling   crates/cartridge-engine/src/rolling.rs, the policy of a rolling update: `validate`,
--             `next`, `start_action`, `drain_action`.
--   Supervisor  crates/cartridge-engine/src/supervisor.rs, the status of a stack's replicas:
--             Supervisor/Types the data, Supervisor/Names `valid_name`, `valid_text` and
--             `is_digest` of lib.rs beside it, Supervisor/Validate the checks, Supervisor/Change
--             and Supervisor/Probes what the operations share, and Supervisor/Operations the
--             operations of `StackRuntimeStatus` (`begin_start`, `mark_running`,
--             `mark_probe_signal`, `mark_probe_timeout`, `mark_exit`, `mark_drained`,
--             `recover_interrupted`, `heartbeat`, `eligible_starts`, `probe_ready`). The JSON
--             encoder and SHA-256 are third-party; the record `Hashing` stands for what they
--             compute, and no law of it is used; so with `ReportDigest` in Health.
--   Health    crates/cartridge-engine/src/health.rs, the health report of a stack, made by
--             `from_status` from the status of the supervisor, and its checks.
--   Rollout   crates/cartridge-engine/src/rollout_progress.rs, the progress of a live rollout:
--             Rollout/Validate the checks, Rollout/Operations `enable_candidate`,
--             `request_previous_drain`, `set_phase`, `heartbeat` and `acknowledge_drained`,
--             Rollout/Observe `instance_observation`, and Rollout/Schedule `next_action` with
--             `stack_start_capacity`. The record `Encoding` stands for JSON and SHA-256, without
--             laws. Rollout/Operations/Calls gathers the operations in one type of requests.
--   Network   crates/cartridge-network/src/lib.rs: Network/Document the shared documents
--             (`SharedDocument`), Network/Rollback `RollbackWindow`, Network/Asset `split_asset`
--             and `assemble_asset`, Network/Channel `MessageChannel`, Network/Session
--             `PeerIdentity`, `PeerSession` and `DiscoveryRecord`, Network/Simulation `simulate`,
--             and Network/Http the policies, requests, fixtures and service requests. An
--             operation's identity, the curve, the cipher, the hexadecimal, parsed URLs and hashes
--             are third-party: they are parameters, and where a theorem relies on what they
--             document, a record has it as laws (`IsAgreement`, `IsSealing`). Random nonces and
--             secrets are arguments.
--   InputQueue  crates/cartridge-media/src/input.rs, the bounded queue of input events.
--   Manifest  crates/cartridge-core/src/manifest.rs, the manifest of a package: Manifest/Types the
--             data, Manifest/Names the checks of ids, aliases, texts and interfaces (with
--             `normalize_relative_path` of lib.rs beside it), Manifest/Limits `RuntimeLimits`,
--             Manifest/Relations `validate_relationships`, Manifest/State `validate_state` and the
--             walk of `migration_plan`, Manifest/Integrity `asset_integrity_root`,
--             Manifest/Platform `Compatibility::validate` and what `negotiate_platform` goes over,
--             and Manifest/Package `PackageManifest::validate`, `migration_plan` and
--             `negotiate_platform`.
--   Resolver  crates/cartridge-core/src/resolver.rs: Resolver/Dependencies `resolve_dependencies`,
--             Resolver/Lock `CompositionLock`, Resolver/Graph `build_approved_graph` with
--             `expand_graph`, and `ApprovedGraph::validate`, Resolver/Authority
--             `RelationshipAuthority`, and Resolver/Checks the checks that they share. What
--             `expand_graph` takes by mutable references is the record `Search`, which it gives
--             back. Semantic versions, SHA-256 and hexadecimal texts are third-party: the record
--             `Crates` stands for them in Manifest and Resolver, with the order of versions as an
--             `Ord`, whose laws are those of Rust's trait.
--   Prelude   numbers, lists, texts, sorted maps and results, which the parts share.
--
-- The engine asks the rolling policy for the next action from the replicas that it observes; a
-- cartridge reaches the storage through the runtime host. A health report counts the replicas
-- of the supervisor's status. The scheduler of a rollout turns the statuses of both generations into
-- observations, asks the rolling policy about each instance, and cuts its starts to the room that the
-- stack has. A manifest's HTTP policy is one of Network. The resolver chooses among manifests that
-- are valid, and grants authority along the edges of the graph that it builds.
--
-- A `String` is the list of its code points with its UTF-8 spelled out, a `BTreeMap` a list in
-- ascending order of keys, a `BTreeSet<u16>` an ascending list, and a machine word a natural number
-- whose wrap-around or overflow check is written out with its modulus; `usize` has 64 bits. A
-- `RwLock` runs one call at a time; that it is poisoned is a flag of the state. Most loops go over a
-- list. Fuel stands in `chunks` (the number of bytes, as each chunk takes one at least), in `walk`
-- (the schema of the package, as every migration raises the schema), in `merkle_root` (the number of
-- leaves, as a level has fewer nodes than the one below it), in `digits` (the number itself), and in
-- `expand_graph`, where it is the source's own bound of 64 on the depth, and running out is the
-- source's error.
--
-- Not modelled: the directory backend, blobs and snapshots (files), the engine's daemon, stack plans
-- (with `from_plan` and `validate_against` of the status), the record of a rollout (with
-- `from_rollout` of its progress) and routing, archives and packing, the reading of manifests from
-- TOML, identities and releases, audio and graphics, the desktop, the runtime host and the command
-- line. Most of them are work on files, sockets, processes and third-party libraries.
pub mod Prelude
pub mod Storage
pub mod Rolling
pub mod Supervisor
pub mod Health
pub mod InputQueue
pub mod Network
pub mod Rollout
pub mod Manifest
pub mod Resolver
