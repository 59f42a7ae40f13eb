-- ===== src/Lib.antt =====
-- The limiter of slime (slime.io/slime/modules/limiter): a Kubernetes controller that turns
-- SmartLimiter resources into Envoy filters, and into the configuration of a rate limit server.
--
-- A SmartLimiter has a set of descriptors for each subset of a service and for the service as a
-- whole. A descriptor has a condition and a quota, which are templates over metrics, an interval, a
-- strategy (global or local), the headers that a request must have and the routes that it is about.
-- `GenerateEnvoyConfigs` resolves the descriptors of each subset at the metrics and gives an Envoy
-- filter for it: rate limit actions on the routes, the two HTTP filters, a local rate limit for each
-- route; and the descriptors that the rate limit server is told of.
--
-- The files and the code they are about:
--   Api: the records of api/v1alpha2/smart_limiter.pb.go, and what a read of the API server gives
--   Model: model/const.go and model/model.go
--   Route, Action, RoutePatch, LocalLimit: controllers/envoy_local_limit.go. Route has the routes of a
--     target (generateRouteConfigs), Action the rate limit action and the entries of a descriptor,
--     RoutePatch the patches with the actions (generateHttpRouterPatch), LocalLimit the token buckets
--     and the local limits (generateLocalRateLimitPerFilterPatch)
--   GlobalLimit: controllers/envoy_global_limit.go
--   Filters: controllers/envoy_filters.go
--   Environment: the module's configuration
--   Server: the API server and the libraries that controllers/process.go calls, as an interface: a
--     record of operations, and records of the laws that the theorems rely on
--   Process: controllers/process.go. EnvoyFilters has refreshEnvoyFilter, ConfigMap refreshConfigMap,
--     Metrics and Refresh the way from a producer's results to the writes of refresh
--   Reconciler: controllers/smartlimiter_controller.go (Reconcile)
--   Producer: controllers/producer.go
--   Memory, DeepCopy: api/v1alpha2/zz_generated.deepcopy.go, over a memory of cells in which the structs
--     have references where the records of Api have their contents
--   Startup: module/module.go, and of the controllers the functions that put the controller together
--     (NewReconciler, newProducerConfig, newPrometheusSourceConfig)
--   System: the running controller, a step relation on the API server and the reconciler, in which others
--     may write anything without null parts
--   Multicluster: controllers/multicluster/controller.go: the table of member clusters, the retries of
--     the worker and its loop
--   Envoy: the messages of Envoy and Istio, as far as the code builds them
--   Framework: the constants and functions of slime's framework, a parameter of all that use them
--   Prelude, Text, GoMap: what the code uses of Go and its library
--   Examples: concrete inputs, and a server and a format for which the laws hold
--
-- Conventions. A function has its Go name, with underscores. A pointer that may be nil is an
-- Option, as an entry of a slice or a map too, and a slice of a resource is an Option of its
-- elements, since `reflect.DeepEqual` tells nil from empty. A read through nil is `panic` in the
-- monad Go, which every caller passes on. An error is a value. A text is a list of bytes. A Go map
-- is a list of entries with its keys, and `range` over one visits the entries in an order that a
-- Runtime chooses: a theorem that takes a Runtime holds for every order. An integer is ℤ;
-- `strconv.Atoi` has the bounds of 64 bits, and a conversion to uint32 wraps around. A loop is
-- recursion on the list that it ranges over, so that no fuel is needed. The one loop without a list
-- is the worker's (runWorker), which is recursion on fuel: a round for each item that it takes.
--
-- Not modelled: logging; the producers that the framework runs and the informer of the multicluster
-- controller (its work queue and its index are parameters); the marshalling of the messages;
-- main.go, which only calls the framework. The conversion of a message to a struct is a parameter
-- that may fail; the theorems on patches take as a hypothesis that it does not. The API server is a
-- parameter too; the laws that the theorems on refreshes take as a hypothesis say that a successful
-- write is seen by the next read, and that a write is of one object. That writes are accepted is a
-- hypothesis only where a theorem needs it: of the one write that it is about, or, for a whole
-- refresh, as the rule that a write of what is stored in its current version is accepted. A step of
-- System is a request or a metric as a whole; what happens between the writes of one refresh is
-- seen only in the order in which they are made, not with another goroutine's writes among them.
pub mod Prelude
pub mod Text
pub mod GoMap
pub mod Api
pub mod Model
pub mod Memory
pub mod DeepCopy
pub mod Envoy
pub mod Framework
pub mod Route
pub mod Action
pub mod RoutePatch
pub mod LocalLimit
pub mod GlobalLimit
pub mod Filters
pub mod Environment
pub mod Server
pub mod Process
pub mod Reconciler
pub mod Producer
pub mod Multicluster
pub mod Startup
pub mod System
pub mod Examples
