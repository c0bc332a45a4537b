-- ===== src/Lib.antt =====
-- A model of the cluster management service fabric8-cluster, which keeps a table of OpenShift
-- clusters and of the identities that are linked to them, and of the correctness of its core.
--
-- The parts, from the outside in. A request reaches clusterService
-- (cluster/service/cluster_service.go), which checks the caller's account, validates the input and
-- calls the repositories, for writes in a transaction
-- (application/service/factory/service_factory.go, gormapplication/application.go). The
-- repositories (cluster/repository) send statements to PostgreSQL through gorm. At its start the
-- service brings the table into agreement with a configuration file. The HTTP handlers (controller)
-- answer with what clusterService returns, and the configuration file is decoded and checked by
-- configuration. A watcher reloads the file when it changes, and main.go starts it all.
--
-- The files:
-- - Common: Go's tests on numbers, strings and lists. Errors: error values, as the constructors of
--   fabric8-common/errors are called. Model: the structs Cluster and IdentityCluster
--   (cluster/repository).
-- - Platform: code that is not in the repository, as parameters with their documented behaviour:
--   the database behind gorm (Platform/Tables), net/url and the URL helpers of fabric8-common
--   (Platform/Web), the uuid library and the check of service accounts. Platform/Memory is a
--   platform in memory on which the tests run, and which shows that the laws can be met.
-- - Exec: a method is a function of the state (the database, the uuids drawn, inTransaction, the
--   isolation level, and how many transactions were left open) that gives a result and the next
--   state. After an error the state is kept as the statements left it. Exec/Raising and
--   Exec/Faults, and the modules Raising beside the components, tell with which errors a method can
--   end.
-- - Repository: Normalize and ConvertAPIURL (Repository/Normalize), GormClusterRepository
--   (Repository/Clusters), GormIdentityClusterRepository (Repository/Identities), and the checks of
--   existence of application/repository/base (Repository/Existence).
-- - Transaction: BeginTransaction, SetTransactionIsolationLevel, ExecuteInTransaction and
--   Transactional. Here the work of a transaction is run to its end before the deadline is looked
--   at, the deadline rolls it back, and a panic of the work is a value. Transaction/Timeout has the
--   goroutine and its caller as two threads whose steps come in any order, with a work that goes on
--   after the deadline. A statement is one step, and so is Commit or Rollback, which in
--   database/sql waits for the statement in flight. That a transaction is running, or that one is
--   outside of it, means the flag inTransaction; a transaction that BeginTransaction leaves open is
--   only counted (Transaction/Leaving). Transaction/Models: the helper of models/transaction.go.
-- - Service: validate and validateURL (Service/Validation), the methods on clusters
--   (Service/Clusters) and on links (Service/Links) of clusterService, and
--   CreateOrSaveClusterFromConfig (Service/Sync). Service/Works: the functions that the service
--   hands to ExecuteInTransaction, statement by statement, for the two threads. Service/Invariant:
--   what every method keeps. Service/Catalogue: the abstract specification, a catalogue of clusters
--   by url and of links, with what each method may answer, the tables as a catalogue, and the
--   refinement. Service/Watcher: a round of the loop of InitializeClusterWatcher, as a function of
--   an event, the files as it finds them, and the configuration and database that it shares with
--   the requests.
-- - Controller: the handlers of controller (Controller/Clusters, Controller/Users,
--   Controller/Status), with what they answer as a value. Configuration: the keys and default
--   values of configuration/decode_clusters.go (Configuration/Keys, Configuration/Decoding), and
--   the files and settings of configuration/configuration.go (Configuration/Files,
--   Configuration/Settings), its defaults and getters (Configuration/Defaults,
--   Configuration/Getters) over viper (Configuration/Viper), the environment
--   (Configuration/Environment), and what is done by reflection on the fields of a cluster
--   (Configuration/Reflection); viper, mapstructure and the file system are parameters.
-- - Wiring: the contexts of services and repositories by address, and the factories that make them
--   (NewGormDB and ClusterService of gormapplication/application.go,
--   application/service/factory/service_factory.go).
-- - Design: the actions of the API with their paths, security and declared responses (design), and
--   the errors that the handlers answer with.
-- - System: the handlers and the watcher together, as a step relation on the configuration and the
--   database. A request or an event is one step.
-- - Startup: main of main.go, from the switches to the point where it listens.
--   Configuration/Serving: what main sets by the configuration, and which handlers stand where.
-- - Tests: runs on the platform in memory.
--
-- Every loop of the source but one runs over a list or a text. The loop of main.go that opens the
-- database runs until it succeeds, so Startup.connect is given a number of attempts; any number
-- above that of the first attempt that succeeds gives the same result. The map of configured
-- clusters is given by the list of its values in the order in which the loop meets them, so what is
-- said of all lists holds of every order.
--
-- Not modelled: requests, or a request and the watcher, that interleave within a step of System;
-- what main.go does with loggers and middleware; String() of the configuration, which prints it;
-- the schema migrations, whose constraints are laws of the database parameter; Sentry and logging;
-- of the goa design the attributes of payloads and media types, which describe text for a
-- generator, and the code that is generated; and the test support.
pub mod Common
pub mod Errors
pub mod Model
pub mod Platform
pub mod Exec
pub mod Repository
pub mod Transaction
pub mod Wiring
pub mod Configuration
pub mod Service
pub mod Controller
pub mod Design
pub mod System
pub mod Startup
pub mod Tests
