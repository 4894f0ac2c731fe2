-- ===== src/Lib.antt =====
-- awsbnkctl provisions an AWS cluster with F5's BNK on it. What it is to build is written in a file
-- cluster.yaml; the package internal/intent reads that file, fills in defaults, derives addresses
-- and refuses what cannot work, and every other part of the program takes its result on trust. This
-- library models that package as a whole, the table of releases of internal/manifest on which it
-- rests, and parts on which the others stand: the tags of internal/aws/tags, the file of resource ids
-- of internal/aws/state, the phases of internal/aws/phases that build the network and the run of its
-- repairs, the redacting writer of internal/exec, the resynchronisation and the watch of routes of
-- pkg/bnk, the readiness of internal/k8s/bnkscan, the metrics of internal/genai and the job graph of
-- tools/ciwatch.
--
-- How the parts interact: Load decodes the file, runs applyDefaults, then validate, and returns the
-- cluster or the first error; validate calls one function per block. Warnings go to the standard
-- error. Patterns (external-only, dual-interface, sriov-external) decide which interfaces there are,
-- so the defaults, the addresses and the checks all ask for the pattern.
--
-- Files and what they model:
--   Intent/Schema, Intent/Schema/Ai: the structs of internal/intent/cluster.go and sagemaker.go. An
--     optional block is an Option, a map an association list, Go's int a signed integer of any size
--     (values are only compared and copied).
--   Intent/Pattern: IsBNKPattern, HasInternalInterface, DataplaneBinding, IsBGPEnabled.
--   Intent/Resolve: the settings that are taken from the environment, the file or a default.
--   Intent/Address: DefaultVIP, DefaultJumphostExtIP, SelfIPPoolRange, DeriveSelfIP.
--   Intent/Defaults, with Groups and Addresses: applyDefaults; Intent/Ai: its ai block and the
--     predicates of sagemaker.go.
--   Intent/Check: the result of a check, which is the warnings printed and the first error.
--   Intent/Names: the regular expressions for names.
--   Intent/Validate: validate and Load; below it Kubernetes (validateKubernetesVersion), Groups
--     (validateNodeGroups), Pattern (validatePattern), Demo (validateTesting, validateBnk,
--     ValidateDemo, EnableDemo, SetDemoTags), BigIp (validateBigIPVE), Ai (validateSageMaker,
--     validateSynthetic). A function keeps its name in snake case.
--   Release: KnownReleases and its lookups, internal/manifest/manifest.go; Release/Manifest:
--     ParseReleaseManifest of the same file, from the decoded YAML on.
--   Tags: internal/aws/tags/tags.go, the tag set that every AWS resource carries.
--   Redact: internal/exec/redact.go, the writer through which the output of every tool goes and which
--     replaces secrets. Whether the underlying writer takes the bytes is a parameter; a write that it
--     refuses is taken to deliver nothing.
--   Cache: internal/aws/state/state.go, the file state.env and the temporary file beside it. The file
--     system is a record that says which steps succeed and what of the text is written. Lines, Comments
--     and Recorded below it are lemmas; RoundTrip, Saving and Errors are proofs.
--   Resync: pkg/bnk/resync.go, with Targeting (which routes) and Run (toggleWeights and the loop). The
--     cluster is a parameter; Resync/Server states what RFC 6902 says of a server, as a record of
--     laws that Tests/Resyncs gives a concrete server for.
--   Watch: pkg/bnk/watch.go: buildServiceIndex; Loop is watchOnce, as a step relation on the events
--     that a select takes; Rounds is the loop of WatchHTTPRoutes around it. Keys, Indexed, Refines,
--     Served and Backoff are proofs.
--   Phases: internal/aws/phases, over a cloud that is a parameter: Vpc (phase02_vpc.go), Subnets with
--     Subnets/Zones (phase03_subnets.go), Gateway (phase04_igw.go), Polling and Nat (phase05_nat.go),
--     Routes and Routes/Down (phase06_routetables.go). A phase is an action on the configuration, the
--     recorded ids, the file and the cloud, which stay changed when it fails. Safe, DryRun, Failures,
--     Deadlines, Rerun, Again, Released, Routes/Joined and Routes/Filled are proofs, and so are
--     Collected, Tables and Deleted below Routes/Down.
--   Bnkscan: internal/k8s/bnkscan, the verdict on an index of the cluster (types.go: DetectGeneration,
--     problems; readiness.go: the tallies and MigrationAdvice), and Waiting, WaitReady over a scan and a
--     clock that are parameters. The log of WaitReady is left out. Verdict and Advice are proofs.
--   Heal: internal/aws/phases/heal.go, RunHeal and DetectAll over a table of repairs that is a parameter.
--     Reports, Barred and Doctor are proofs.
--   Genai: internal/genai/prometheus.go, on texts as lists of code points; Labels with Labels/Blocks,
--     and RoundTrip, are proofs.
--   Ciwatch: tools/ciwatch/dag.go, topoDepth; Phase is the phases of model.go and AggregatePhase. Kahn
--     states what holds between two rounds of topoDepth; the modules below it prove that, and Cells
--     is about AggregatePhase.
--   Net, Regex, Duration, Float64: models of what the source calls of Go's library: net.ParseIP,
--     ParseCIDR, To4, Contains and Equal; regexp on the patterns that the source has; ParseDuration;
--     comparison of float64. They follow Go's own algorithms on the bytes of a text.
--   Platform: what the model takes as a parameter. That is the environment, the order in which a map
--     is visited, and the rounding of the fraction of a duration.
--   Base: shared types, tests on numbers, texts and lists, and their laws.
--   Samples, Tests: concrete configurations and runs.
--
-- Bounds and fuel: a wait of phase 05 looks every ten seconds, so its fuel is 31 looks for five
-- minutes and 61 for ten; WaitReady takes the number of looks as an argument; topoDepth takes as
-- many rounds as there are jobs, and the labels of a sample as many as their text is long;
-- ParseDuration recurses on the length of the text, which is enough since each round reads a
-- character; a number is printed with as many rounds as it is large; the groups of an IPv6 address
-- are read in eight rounds, as in Go. Everything else is structural recursion, so every function
-- is total.
--
-- Not modelled: reading the file and the strict YAML decoding of it, which are one argument of load;
-- the texts of messages, of which an error keeps the arguments; SyntheticProfileNames; the
-- other phases and the ways down of the phases 02 to 04; and the packages that call Kubernetes and
-- other services.
pub mod Base
pub mod Bnkscan
pub mod Cache
pub mod Ciwatch
pub mod Duration
pub mod Float64
pub mod Genai
pub mod Heal
pub mod Intent
pub mod Net
pub mod Phases
pub mod Platform
pub mod Redact
pub mod Regex
pub mod Release
pub mod Resync
pub mod Samples
pub mod Tags
pub mod Tests
pub mod Watch
