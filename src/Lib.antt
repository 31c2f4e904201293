-- ===== src/Lib.antt =====
-- A model of the OP Stack operator, a Kubernetes operator written in Go, with the theorems that make
-- its parts correct.
--
-- The operator watches two kinds of objects. An OptimismNetwork describes a rollup: its controller
-- (internal/controller/optimismnetwork_controller.go) validates it, tests the L1 endpoint, discovers
-- the contract addresses (pkg/discovery/discovery.go) and writes ConfigMaps. An OpNode describes an
-- op-geth and op-node pair: its controller (internal/controller/opnode_controller.go) waits for the
-- network to be Ready and then creates the secrets, the StatefulSet (pkg/resources/statefulset.go) and
-- the Service (pkg/resources/service.go). Both report through status conditions
-- (pkg/utils/conditions.go). pkg/config/images.go holds the images and their versions. cmd/main.go
-- starts both controllers, and three that do nothing yet, under one manager.
--
-- Files and what they model:
--   Prelude, Text        shared types, Go's integers and the functions of strings, strconv, fmt and
--                        encoding/hex in use
--   Api                  api/v1alpha1/opnode_types.go and optimismnetwork_types.go, as records; Meta
--                        has the parts of object metadata and conditions that the operator touches,
--                        Scaffold the types for batchers, proposers and challengers and the kinds
--                        that are registered
--   Runtime, Cluster     Go's errors, effects as functions of a world, and the operations of
--                        controller-runtime, client-go, crypto/rand and go-ethereum as a record
--                        (Cluster); Keeps, Within and Retries are about any run of such operations,
--                        and Server has what the API server is documented to do with secrets,
--                        OpNodes and networks
--   Conditions           pkg/utils/conditions.go: SetCondition is set_condition, and so on
--   Images               pkg/config/images.go
--   Discovery            pkg/discovery/discovery.go: DiscoverContracts is discover_contracts, with the
--                        cache passed in and returned
--   Resources            pkg/resources: CreateOpNodeStatefulSet is create_op_node_stateful_set,
--                        CreateOpNodeService is create_op_node_service; Objects has the fields of
--                        the Kubernetes objects that they fill in
--   NodeController       internal/controller/opnode_controller.go: Spec, Secrets, Objects, Status and
--                        Reconcile are its methods, the other files are about them
--   NetworkController    internal/controller/optimismnetwork_controller.go, in the same way
--   Manager              cmd/main.go (Options, Main), the methods SetupWithManager and the controllers
--                        that do nothing (Controllers), and the kubebuilder:rbac markers (Rbac) of
--                        internal/controller; the other files are about them
--   System               runs of the two reconcilers in any order, between steps of others: Served
--                        on such an API server, Promises about what is there, Interleaved with
--                        others between the calls of one run
--   DeepCopy             api/v1alpha1/zz_generated.deepcopy.go, on values as they stand in memory:
--                        Memory has addresses and the steps that the generated functions consist of,
--                        Library the deep copies of k8s.io's types that they call, Plain to Scaffold
--                        the functions type by type (DeepCopyInto of OpNodeSpec is
--                        deep_copy_into_op_node_spec, DeepCopy deep_copy_op_node_spec), Objects the
--                        DeepCopyObject methods, Types and Extent all the types by name; Copies,
--                        Separate and Isolated are about them
--   Tests                an in-memory cluster and the theorems applied to it
--
-- A name of the source keeps its words: reconcileJWTSecret is reconcile_jwt_secret. A Go pointer is an
-- Option, an error a result, a map with text keys a list of pairs. Reconcile is cut into one function
-- for each step, and what follows a step is named after it: after_secrets is what Reconcile does
-- behind reconcileSecrets. The world that the API server, the L1 endpoint, the clock and the random
-- source make up is a type parameter; what theorems assume of it (that RetryOnConflict repeats a call
-- only behind a conflict, that an object that was written is found as the API server stores it, once
-- the client's cache has caught up) is a named hypothesis, and the tests have a cluster for which it
-- holds. resource.Quantity is a type parameter. Loops are recursion on lists; `%d` runs on fuel, one
-- round more than the number it prints, which is more than its digits. Durations are nanoseconds; no
-- arithmetic of the program can leave the range of an int64 for the durations and times that occur.
--
-- What a run does to the world is stated by footprints: a record of what a property of the world has to
-- survive (NodeController/Footprint.antt, NetworkController/Footprint.antt), each of whose fields is one
-- kind of call with what is known of its arguments. The steps of the system are whole runs and steps of
-- others. For a run in whose middle others act, Cluster/Interleaved.antt turns a cluster into one where
-- a function of the world, which stands for them, comes before each call.
--
-- Deep copies are modelled on structs of their own (OpNodeStruct beside OpNode), in which a pointer, a
-- slice or a map is nil or an address together with what stands there, since what matters of a deep copy
-- is which addresses it shares; elsewhere addresses make no difference and the API records have none. An
-- allocation returns the next free address. A map is read in the order of its list, a slice has no
-- capacity beyond its length, and Go's one address for all empty slices counts as many.
--
-- Not modelled: the parsing of the command line, the scheme and the logger, which are libraries;
-- logging; deadlines of contexts other than the timeouts that are passed on; and the sharing of a cached
-- address record between the cache and the statuses it was copied into by pointer.
pub mod Prelude
pub mod Text
pub mod Api
pub mod Conditions
pub mod Images
pub mod Runtime
pub mod Discovery
pub mod Resources
pub mod Cluster
pub mod NodeController
pub mod NetworkController
pub mod Manager
pub mod System
pub mod DeepCopy
pub mod Tests
