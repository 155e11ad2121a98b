-- ===== src/Lib.antt =====
-- A model of crane-lib, the library behind the migration of Kubernetes workloads, with the
-- theorems that make its core correct.
--
-- The program has two halves. `state_transfer` moves the state of a namespace: it scales the
-- workloads down and up again (state_transfer/quiesce.go) pairs up the claims whose volumes are
-- copied (state_transfer/transfer/pvc_list.go, state_transfer/meta/name.go), and builds the rsync
-- command that copies them (state_transfer/transfer/rsync). `transform` rewrites
-- exported resources: a runner asks each plugin for JSON patch operations and merges them
-- (transform/runner.go, transform/internal/jsonpatch/compare.go), of which the Kubernetes
-- plugin is built in (transform/kubernetes/kubernetes.go), new resources are split into a
-- skeleton and a patch (transform/new_resource.go), resources are grouped by type
-- (transform/types.go, transform/grouping.go), and a stage is written down for kustomize
-- (transform/kustomize).
--
-- Files:
--   Cluster      the API server as a client with laws, and the loop of every quiesce function;
--                Cluster/Store shows that the laws can hold
--   Quiesce      one round of each loop for one object; Quiesce/Pods is
--                `ensureQuiescedPodsTerminated` and the wait, Quiesce/Applications the whole runs
--   Meta         state_transfer/meta/mutations.go and labels.go
--   Rsync        state_transfer/transfer/rsync: Patterns and Command (`AsRsyncCommandOptions`), Apply
--                (`ApplyTo`, `Apply`) with Aliasing (the arrays that the slices of mutations share),
--                Mutations (`applyPodMutations`), Validation (`validatePVCList`, `NewTransfer`)
--   Indirect     state_transfer/transfer/indirect: `Upload`, `Download`, `CleanupCloudData` and the
--                names of their pods
--   Transfers    state_transfer/transfer/transfer.go: `ConnectionHostname`, `IsPodHealthy`,
--                `AreFilteredPodsHealthy`
--   PvcList      `PVCPairList` and its operations, `NewNamespacedPair`
--   Transform    ApiVersion (`parseAPIVersion`, `splitAPIVersion`, `GetResourceTypeKey`), Grouping
--                (`GroupResourcesByType`), JsonPatch (`Equal`, `EqualOperation`), Runner (`Run`,
--                `sanitizePatches`), NewResource (`SplitNewResourceToSkeletonAndPatch`), Util (the
--                images and claims of transform/util), OptionalFields (the two readers of
--                transform/plugin.go), DuckType (transform/types/duck_type.go)
--   JsonPointer  `escapeJSONPointer`, with RFC 6901 beside it
--   Json         the content of unstructured objects; Json/Patch is RFC 6902, as
--                apply/applier.go has it applied, for values inside maps
--   Kubernetes   transform/kubernetes/kubernetes.go: Options (`setOptionalFields`, `Metadata`),
--                WhiteOuts (`getWhiteOuts`), Strip (`stripFields`), Annotations, Jobs, Services and
--                NodePorts (`removeServiceFields`), Volumes, Transforms
--                (`getKubernetesTransforms`), Plugin (`Run`)
--   Kustomize    Naming, Serializer and Generate, for naming.go, serializer.go and kustomization.go
--   ApiGroups    apigroups/builtin.go
--   Strconv, Strings, Sorting   what the program uses of Go's standard library
--   Base         shared types and lemmas
--
-- A Go function with an error result returns a `Result`, which also has a case for a panic. Maps
-- are association lists; where the source ranges over a map, an argument gives the order. Integers
-- are unbounded with the conversion `int32` written out, and `Atoi` keeps its bound. Slices are lists
-- but where `append` can write into a shared array; there an argument is the capacity of a new array.
--
-- The API server's client, the json-patch library, the plugins, JSON encoding and the getters of
-- unstructured objects are arguments. The wait for the pods has no bound in the source; in the
-- model it runs on a number of rounds, and any number above the first round that sees the pods
-- ended is enough.
--
-- Not modelled: the transports, endpoints and transfers that build API objects (of rsync, all but
-- its options; of the indirect transfer, `Cleanup`), the tunnel API, the conversion of build
-- configs, YAML and file access, logging.
pub mod Base
pub mod Strconv
pub mod Cluster
pub mod Quiesce
pub mod Strings
pub mod Rsync
pub mod Sorting
pub mod Json
pub mod JsonPointer
pub mod Kubernetes
pub mod Kustomize
pub mod Transform
pub mod Indirect
pub mod Transfers
pub mod Meta
pub mod PvcList
pub mod ApiGroups
