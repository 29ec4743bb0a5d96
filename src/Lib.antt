-- ===== src/Lib.antt =====
-- k8s-sustain, modelled: the operator that sizes the requests and limits of Kubernetes workloads
-- from Prometheus history.
--
-- The controller asks the recommender for a recommendation of each workload identity: signals
-- read from Prometheus and from the OOM watcher contribute values for a container's resource, the
-- winner goes through headroom, the Policy's bounds and the coordination with an HPA or a KEDA
-- ScaledObject, and the limit follows by the Policy's strategy. The controller stores what it
-- decided in the identity's WorkloadRecommendation, which the webhook reads when it admits a pod.
-- Both ask governance which Policy governs, and apply the Recommendation to containers by the
-- workload package; the ledger remembers which members failed, when they run again and when the
-- next pass is due.
--
-- Prelude: numbers, lists, maps and time shared by all parts. An int64 or int32 of the source
-- wraps around as in Go; a Go map is an association list; a time.Time is its nanoseconds since
-- the zero time, and a Duration an int64.
-- Units: resource.Quantity and float64 are parameters (records Quantities and Floats), with what
-- their documentation says as records of laws; Units.Model is a concrete instance of both.
-- Api: the types of api/v1alpha1 that the program computes with.
-- Autoscaler: internal/autoscaler (lookup_info for lookup, index_infos for the loops of indexHPAs
-- and indexScaledObjects, for_identity for ForIdentity).
-- OomWatch: internal/oomwatch (the records, the cache that holds them).
-- Watcher: internal/oomwatch/watcher.go over that cache and Decide. Watcher is oomKills and
-- containerMemLimitBytes (oom_kills, container_mem_limit_bytes), Retrying is ownerRetryAfter,
-- Reconciling is Reconcile (reconcile) with the calls of OnOOMDetected in its outcome. The passes
-- of several pods run at the same time; each is modelled without another between its calls.
-- Breaker: internal/prometheus/breaker.go, the circuit breaker.
-- Governance: internal/governance. Walk is Decide of governance.go (decide, with the monad W over
-- what the walk has read), Consent is what the Policies accept (policies.go).
-- Shards: BuildShards of internal/prometheus/shard.go (build_shards; pack for its inner loop).
-- Lru: internal/cache/lru.go (set for setLocked and Set).
-- Workload: internal/workload. Inject is inject.go (apply_to for applyTo, inject for Inject),
-- Tolerance and Plan are match.go (within_decrease for withinDecrease, plan_for for planFor).
-- Patcher: internal/workload/patcher.go and apply.go. Pods, Resources and Ordering are its tests of
-- pods, Cluster what it calls, Resizing one pod's turn (touch for the switch of recycle), Waiting
-- the wait for a replacement, Changes and Recycling the passes (recycle, resize_in_place_only),
-- Members whose pods they are, with ownerref.go, and Applying is Apply.
-- Inventory: internal/inventory (take for Take, take_for_policy for TakeForPolicy). Settling is what
-- the members of an identity decide together (settle), with ContainersFromObserved of
-- internal/wlrcache/wlrcache.go; Building and Taking are the builder.
-- WlrCache: internal/wlrcache, with the type of api/v1alpha1/workloadrecommendation_types.go.
-- Reading is read.go; Writing is what write.go decides and Handlers what it calls (ensure for
-- Ensure, request for Request, record_decision for Record); Deleting is delete.go. The Kubernetes
-- API is a parameter (record Client of WlrCache.Client), whose calls are steps on a state.
-- Ledger: internal/ledger. Recording is one member's result (record_result for recordLocked, fail
-- for failLocked), Claims is health.go, Passes has Settle and RequeueAfter, Errors the errors.
-- Counts of members, failures of a pass and pods are ℕ: what is held in memory fits an int64.
-- Webhook: internal/webhook/decide.go (decide, its parts in the order of its early returns), with
-- BuildObservedResources of internal/wlrcache/wlrcache.go.
-- Recommender: internal/recommender (compute for Compute, size for size, limit_chain for
-- limitChain, coordinate for coordinate, with_live_ooms for withLiveOOMs).
--
-- The definitions under a mutex are single steps on a state; a step that reads the clock takes the
-- instant as an argument. Loops range over lists, but for the wait for a replacement, which runs on
-- as many polls as its timeout and its interval let happen, and two more (poll_fuel).
--
-- Not modelled: the Prometheus calls, HTTP handlers, metrics, flags and logs, which are I/O;
-- the controller's pass and the dashboard's simulation.
pub mod Prelude
pub mod Units
pub mod Api
pub mod Autoscaler
pub mod OomWatch
pub mod Breaker
pub mod Workload
pub mod Patcher
pub mod Inventory
pub mod Watcher
pub mod WlrCache
pub mod Ledger
pub mod Shards
pub mod Lru
pub mod Governance
pub mod Webhook
pub mod Recommender
