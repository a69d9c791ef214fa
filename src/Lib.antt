-- ===== src/Lib.antt =====
-- The cloud provider of Open Telekom Cloud for Kubernetes: the load balancers of Services.
--
-- The program is the controller of Services of type LoadBalancer. The Kubernetes controller manager
-- calls the interface of pkg/elb for a Service; pkg/elb reads the cloud config (pkg/config) and the
-- annotations of the Service, looks for the load balancer in the ELB API, and brings it, its
-- listeners, pools, members, health monitors, IP groups and EIPs to what the Service asks for.
--
-- Files, and what they model:
--   Base, Base/*         shared names, Boolean tests, equality, lists, signed integers
--   Text, Text/*         Go strings as lists of bytes; strings, strconv and fmt as the source uses
--                        them; cutString of pkg/elb/elb.go
--   Maps                 a Go map as an association list
--   Kube                 the fields of Service and Node that are read
--   Config               pkg/config/config.go: ReadConfig, AuthMethod; Config/Printed: String, GoString;
--                        Config/Clouds: pkg/config/clouds.go; Config/Checks: proofs
--   Settings             pkg/elb/annotations.go: settingsForService; Settings/Valid, Settings/Lists: proofs
--   Cloud/Errors         error values, isNotFound, isConflict, isBadRequest
--   Cloud/Resources      the fields of the SDK's types that are read or written
--   Cloud/Calls          the calls of the SDK, and the type of the answer to each
--   Cloud/Exec           the state that a call of the provider runs on, and the outside world
--   Cloud/Exec/Sends     which calls an action sends, one rule for each way to build an action
--   Cloud/Exec/Answers   what the cloud has answered in a run
--   Cloud/Exec/Ends      what holds once an action has succeeded, one rule for each way to build an action;
--                        Cloud/Exec/Gone, Cloud/Exec/Done: deletions and updates that have succeeded
--   Cloud/Exec/Orders    the order of a range over a map
--   Elb/Names            GetLoadBalancerName, names of sub-resources, ownership, keys
--   Elb/Wait             waitForActive, retryOnConflict, mutate
--   Elb/Nodes            nodeAddress, lbStatus
--   Elb/Members          reconcileMembers, listMembers; Elb/Members/Known: the members of a pool by the
--                        cloud's answers, which is the abstract view of a pool
--   Elb/Pools            ensurePool, desiredPersistence, findPoolForListener
--   Elb/Monitors         reconcileMonitor
--   Elb/IpGroups         pkg/elb/ipgroups.go
--   Elb/Listeners        createListener, deleteListener, listListeners
--   Elb/Reconcile        reconcile
--   Elb/LoadBalancers    findLoadBalancer, createLoadBalancer, releaseEips
--   Elb/Balancer         GetLoadBalancer, EnsureLoadBalancer, UpdateLoadBalancer,
--                        EnsureLoadBalancerDeleted
--   Identity             pkg/identity: the providers, their login, the transport, a tick of the refresh loop;
--                        Identity/Services: service_client.go, WithTokenCache;
--                        Identity/Choice, Identity/Login, Identity/Refresh: proofs
--   Provider             pkg/opentelekomcloud/opentelekomcloud.go: NewOTC, Initialize, what is registered
--   Manager              cmd/cloud-controller-manager/cloud-controller-manager.go; Manager/Checks: proofs
--   Fake, Fake/*         the in-memory cloud of pkg/elb/fake_elb_test.go
--   Tests, Tests/*       runs on that cloud, and each theorem at a concrete input
-- A child module of a component holds proofs about it.
--
-- The outside world. A `World` answers each call of the SDK from the calls before it: any function, so
-- that a theorem for all worlds holds for every cloud, also one that fails at any point or that others
-- change meanwhile. An answer is a value, an error or, for a nil pointer that the code dereferences, a
-- panic. The state of a run is the list of the calls sent, newest first, and the two pointer variables
-- that closures of the source share. `WaitLaws` is what the wait package documents: a loop is some
-- number of attempts, at most `Steps` for a backoff. `OrderLaws` says that a range over a map visits
-- each key once. `MemberLaws` says that a member is created as asked for, keeps its address and port, and
-- has no double in a listing. They are hypotheses of the theorems that use them; Fake fills the first two
-- and Tests/Keyed the third. The INI parser,
-- the environment, `%q` and the reading of clouds.yaml are parameters.
--
-- Integers. `int` is ℤ over the native numbers, since the values come from strconv.Atoi, which refuses
-- what does not fit; the int32 of a persistence timeout keeps its wrap-around. Texts are bytes, as
-- `len` and slices count them. ToUpper is modelled as far as its result is ASCII, and TrimSpace cuts the white space of
-- Unicode in its encoding.
--
-- Loops over ports, nodes, members and listeners are recursion on the list. The retries have no fuel of
-- their own: the number of attempts is the world's.
--
-- A `Session` of pkg/identity is a provider with the client of its login. GetProvider holds a lock for
-- its whole body, so that a use of it and a tick of the refresh loop are each one step; an `Sdk` answers
-- the login and reads the CA file, possibly differently at each attempt.
--
-- The registry of k8s.io/cloud-provider is the parameter InitCloudProvider of Manager. It gives a cloud, none or an
-- error, or ends the process itself, as where it cannot open the config file.
--
-- The client of a service is one call of the outside world: the reading of the identity and its region by newClient
-- and newNetworkClient of pkg/elb/elb.go stands behind it, and only its error is modelled.
--
-- Not modelled: the options and the command of the controller manager, logging, contexts, and the HTTP and
-- JSON of the SDK, none of which is code of this repository.

pub mod Base
pub mod Cloud
pub mod Config
pub mod Elb
pub mod Fake
pub mod Identity
pub mod Kube
pub mod Manager
pub mod Maps
pub mod Provider
pub mod Settings
pub mod Tests
pub mod Text
