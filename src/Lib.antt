-- ===== src/Lib.antt =====
-- The nftables daemon of multi-networkpolicy: for each pod of a node with secondary networks it
-- renders the MultiNetworkPolicies as nftables rules in the pod's network namespace.
--
-- The program's parts, from the outside in, and the files that model them:
--   * Events: pkg/controller/predicates.go, mappers.go, indexes.go. Which changes in the cluster ask
--     for a reconcile, and of which node.
--   * Daemon: run and main of cmd/multi-networkpolicy-nftables/main.go, with SetupScheme and
--     SetupIndexes of pkg/controller. Events/Watches is SetupWithManager.
--   * Reconcile: pkg/controller/reconciler.go. Reconcile goes over the pods of the node; GetPodInfo
--     (get_pod_info_of), criRuntimeClient, CloseCRI and resolvePluginType stand beside it, and
--     Reconcile/Node makes them the PolicyDeps of the renderer.
--   * Cri: the connection to the container runtime, pkg/controllers/pod.go.
--   * Applier: pkg/controller/applier_linux.go. It enters the namespace of a pod, and renders or
--     flushes there.
--   * Networks, Cluster: pkg/controllers. Which interfaces of a pod are filtered (NewPodInfoFromPod
--     is new_pod_info_from_pod), its network namespace, and the Kubernetes objects that are read.
--   * Render: pkg/server/server.go. ApplyPolicyRulesForPodAndFamily bootstraps the tables, sorts the
--     policies by direction, renders them, flushes, and cleans up what the render did not keep.
--   * Bootstrap, CommonRules, PolicyRules, Ports, Peers, Selectors, Marks: the stages of a render in
--     pkg/server/netfilterrules.go; Prefixes and Fields hold the parts of rules, and Names the names
--     of chains and sets.
--   * Rules, Sets, Chains: updateRule, updateSet and addChain of pkg/server/netfilterrules.go, through
--     which every stage writes; Keys: pkg/server/encoder.go, the keys under which rules are kept.
--   * Cleanup, Legacy: cleanup and CleanupLegacyTables of pkg/server/netfilterrules.go.
--   * Options, Shutdown: pkg/server/options.go, and the end of the daemon in
--     cmd/multi-networkpolicy-nftables/main.go, pkg/controller/cleanup_linux.go and applier_linux.go.
--   * Recorder: pkg/nftest/nftest.go, the recorder of the Go tests.
--   * Nft: the data and the calls of the nftables connection; Base: shared helpers.
-- A module named Growth is about the keys of kept rules across a stage.
-- A module named Samples holds tests and the instances of the theorems; Nft/Fake and Cluster/Fake
-- hold the kernel and the cluster that these use.
--
-- State. The renderer changes an NftState (nftState): the maps of the rules, sets and chains that it
-- keeps, and the commands that it has sent, in order. Code that may fail is of type Exec: a result
-- and the state as it is left, after an error too. A function of the source is the definition of
-- the same name in lower case with underscores.
--
-- What is not the program's own code is a parameter. Libraries holds each call of google/nftables:
-- a read is any function of the commands sent before it, and a write answers any error; it holds
-- gob, userdata, binaryutil, net, net/netip and netipx by their results. PolicyDeps and PodLibraries
-- hold the cluster, the label selectors, the parsers of annotations and the container runtime; Client,
-- Namespaces, Grpc, Platform and Netlink hold the libraries of the parts named above.
-- Where a theorem needs a property of one of these, it is a named hypothesis: ReadsAsked (GetRules
-- returns rules of the table it is asked for), TablesAsked (so for ListTableOfFamily),
-- PutsBigEndian and LastIp, which have instances in the modules Samples. The order in which Go
-- visits a map is a parameter or the order of a list.
--
-- Bounds. Strings are lists of bytes, and texts are decoded as UTF-8 where Go does so. FNV-1a and
-- ports wrap round at 2 ^ 32 and 2 ^ 16 as written. Loops go over lists, but for the wait for the
-- container runtime, which has fuel: it ends once the connection is ready or its context has ended.
-- Error values keep their cause and not the text that wraps it, and logging is left out.
--
-- Reference. Packets is no model of the program: it says what the daemon's expressions and chains
-- do to a packet, after nft(8), as laws of a parameter (Evaluates, LoadsInterface), and what a kernel
-- shows that has nothing of a render yet (EmptyKernel). Packets/Samples and Packets/DirectionSamples
-- have instances of these. Chains are evaluated to a depth that the theorems leave open, as the
-- kernel bounds the jumps.
--
-- Not modelled: the API server, client-go, controller-runtime, gRPC and pflag, which are parameters
-- by their answers; MatchRulesetBytes and system_conn.go of pkg/nftest, which only call the test
-- framework and the kernel; and vendored code.
pub mod Base
pub mod Nft
pub mod Names
pub mod Keys
pub mod Chains
pub mod Cluster
pub mod Fields
pub mod Prefixes
pub mod Ports
pub mod Marks
pub mod Peers
pub mod Selectors
pub mod PolicyRules
pub mod CommonRules
pub mod Legacy
pub mod Cleanup
pub mod Bootstrap
pub mod Render
pub mod Options
pub mod Networks
pub mod Reconcile
pub mod Events
pub mod Shutdown
pub mod Sets
pub mod Rules
pub mod Applier
pub mod Cri
pub mod Daemon
pub mod Recorder
pub mod Packets
