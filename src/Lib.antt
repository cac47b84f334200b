-- ===== src/Lib.antt =====
-- koprs is a library for Kubernetes operators. This development models its core in six groups.
--
-- Leader election, crates/koprs/src/leader.rs. Leader/Config is `LeaderElectionConfig` with
-- `validate` and `lease_duration_secs`; Leader/Lease is the lease object and `build_lease`;
-- Leader/Elector/Attempt is `LeaderElector` with `observe`, `observed_expired`,
-- `try_acquire_or_renew` (cut at the answers of the server into `after_get` and `after_write`) and
-- `release`; Leader/Elector/Loops is `acquire` and `renew_until_lost`. Leader/Cluster runs any
-- number of replicas of that code against one API server, as a step relation.
--
-- Calls of the API server. Kube holds what the source uses of object metadata and the record of
-- calls that stands for the server; Scope is crates/koprs/src/scope.rs, Error
-- crates/koprs/src/error.rs, Gc crates/koprs/src/gc.rs, Status crates/koprs/src/status.rs (the
-- patches in Status/Patches, the conversions in Status/Conversions), Events
-- crates/koprs/src/events.rs, Finalizers crates/koprs/src/finalizers.rs, and Resources the calls
-- and poll loops of crates/koprs/src/resources.rs, with its listings in Resources/Listing and its
-- label and annotation patches in Resources/Metadata. Owners builds the references of
-- crates/koprs/src/owners.rs and Meta the metadata of crates/koprs/src/meta.rs. Watch is
-- crates/koprs/src/watcher.rs, the tasks that forward a stream of kube-runtime to a channel. Gc
-- deletes through the scope, Finalizers sends patches to it, and Resources composes its calls.
--
-- External sources, crates/koprs-external/src. External/Watcher is the poll loop with its backoff,
-- whose source is a parameter; External/Http and External/Store are the two pollers that it runs;
-- External/Store/Replay and External/Store/Watched follow the events of the object store from its
-- listings to the receiver of the channel.
--
-- Admission, crates/koprs-admission/src. Admission/Review parses an `AdmissionReview` (a value of
-- Admission/Json) and builds the answers of review.rs; Admission/Webhook is the handler of
-- webhook.rs with its timeout, which calls the validator, a parameter, in between;
-- Admission/Builder is the builder that registers it, with the methods that load certificates;
-- Admission/Tls is tls.rs: `certified_key_from_pem`, `ReloadingCertResolver` and its
-- `maybe_reload`, over a disk whose files change between any two accesses. Admission/Server is
-- `run` and `serve` of webhook.rs as steps of the main task, of the task that waits for a signal
-- and of the connections, with the answers of `serve_health`.
--
-- The controller, crates/koprs/src/controller.rs. Controller/Builder is `ControllerBuilder` with
-- `resolve_leader_election`, Controller/Run is `run` up to the release of the lease, over the
-- elector of Leader, and Controller/Reconcile is the wrapper that `run` puts around each reconcile,
-- which counts into the collectors of Observability (crates/koprs/src/observability.rs, with their
-- registration and the answer of the metrics server). Controller/Health is the shared context and
-- the answers of the health server, and Controller/Startup the steps of the tasks of `run` that
-- share `ready` and the shutdown channel.
--
-- The sample operators, examples. Operators/ConfigMapSync is examples/configmapsync,
-- Operators/SecretSync and Operators/ServiceAccountSync are the two reconcilers of
-- examples/multicontroller; they compose the calls of the library (Operators is the record of what
-- they call). ApiConfigSync is examples/apiconfigsync: Policy, Hosts, Addresses and Client (the
-- environment variables and `http_client`) are url_policy.rs, Validator is validator.rs, Fetch and
-- Reconciler are reconciler.rs. Each Leaks module is about a child that outlives its resource, from
-- the laws of the calls in Operators/Laws, and each Placement module about the child that a
-- reconcile leaves, from those in Operators/Placed.
--
-- State and effects. An `async` body is a function from an environment to a result and the
-- environment after it (Prelude/Tasks); the server, the HTTP client and the header parsers are
-- parameters. A `Duration` or an `Instant` is a number of nanoseconds, a resource version an opaque
-- number, a map an association list.
--
-- Loops without an end run over a list of rounds that the environment grants, each with what may
-- happen in it: the time an attempt takes, where a timeout cuts it, what others do between two
-- polls. A list that ends leaves the loop running and does not make it return, and a theorem holds
-- for every list, so no bound is lost; that a loop ends is a theorem of its own with the rounds it
-- takes. All other recursion is structural.
--
-- Assumptions on the environment of the competing replicas: nobody else writes or deletes the
-- lease, a request that a timeout dropped has landed before or never lands, the monotonic clocks
-- run at one rate, and timers fire in time. The latency of a GET is a parameter that the settings
-- leave a margin for. Assumptions on the disk of the certificates: a file that is rewritten shows
-- another modification time. Assumptions on reqwest: a client for whose URL the environment sets no
-- proxy connects to an address literal itself, asks its resolver for a name, and without redirects
-- contacts no other host; of a request through a proxy nothing is assumed. Assumptions on the
-- environment of a reconcile of the sample operators: nobody else takes the finalizer away or makes
-- the child while it runs, and the resource that it was given carries only finalizers that are
-- stored.
--
-- Not modelled: the signal handlers of controller.rs and the wiring of its servers; the mains of
-- the examples, which read the process and build clients; the handlers of signals, the sockets and
-- the HTTP protocol of crates/koprs-admission, which are the environment of Admission/Server. Log
-- lines have no effect that the models keep. The texts of error messages are shortened where the
-- model does not need them.
pub mod Prelude
pub mod Error
pub mod Kube
pub mod Scope
pub mod Leader
pub mod Status
pub mod Gc
pub mod Finalizers
pub mod Resources
pub mod Owners
pub mod Meta
pub mod External
pub mod Admission
pub mod Observability
pub mod Controller
pub mod Events
pub mod Watch
pub mod Operators
pub mod ApiConfigSync
