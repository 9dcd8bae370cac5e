-- ===== src/Lib.antt =====
-- A model of the UpCloud provider for Karpenter, and what is proved about it.
--
-- The program is a Kubernetes operator. Karpenter's core calls its cloud provider to create, read, list
-- and delete servers and to ask whether a NodeClaim has drifted; two controllers of its own look after
-- the node classes and after the age of NodeClaims. The files, and the code that each is about:
--
--   Api, Api/Spec     apis/v1alpha2: constants, the specification of a node class, its hash
--   Api/Conditions    apis/v1alpha2/upcloudnodeclass_status.go: the conversions of conditions
--   Api/Copy          apis/v1alpha2/zz_generated.deepcopy.go and Hash, over a memory (Base/Memory) with addresses
--   Ttl               pkg/controllers/nodeclaimttl/controller.go
--   NodeClass         pkg/controllers/nodeclass/controller.go
--   Drift             pkg/cloudprovider/cloudprovider.go (IsDrifted, resolveNodeClass) and
--                     pkg/events/cloudprovider.go
--   Cloud, Cloud/Claims
--                     pkg/cloudprovider/cloudprovider.go (NewCloudProvider, Create, Delete, Get, List,
--                     GetInstanceTypes, RepairPolicies)
--   Certs             pkg/cloudprovider/helpers.go
--   Instance          pkg/providers/instance/instance.go
--   InstanceTypes     pkg/providers/instancetypes/instancetypes.go
--   UserData          pkg/providers/userdata/userdata.go
--   Plans             pkg/util/helpers.go
--   Startup           pkg/providers/options.go and cmd/karpenter-upcloud/main.go
--   Kube, Base        the objects of Kubernetes and Karpenter that these use; lists, maps, integers
--
-- How they interact: Cloud.create reads a node class (Drift and NodeClass read the same), chooses a plan
-- by Plans, gets a certificate by Certs, makes the user data by UserData, looks the plan up in the cache
-- of InstanceTypes and has Instance create the server; the claim that it returns carries the hash of
-- Api/Spec, which Drift compares and NodeClass stamps again when the hash algorithm changes. Ttl
-- deletes claims, which Karpenter turns into calls of Cloud.delete. Startup.run reads the options, asks
-- UpCloud for the cluster, fills the cache of InstanceTypes, puts the parts together and starts them.
--
-- Where calls of several actors meet, steps of a relation stand for them: NodeClass/System has the runs of
-- the node class controller, whose calls take effect one by one, among edits of the class and NodeClaims
-- that come, change and go; Ttl/History the life of one NodeClaim; InstanceTypes/Interleaving the accesses
-- of refreshes to the locked cache; Kube/Queue an object in the work queue of controller-runtime, with
-- NodeClass/Watched and Ttl/Watched for the two controllers. NodeClass/Sweep and NodeClass/Convergence
-- follow runs in which no call fails. Instance/Fleet and Cloud/Fleet see the account as a finite map from
-- UUIDs to servers, and Cloud/Observed, Cloud/Lookup and Cloud/Unfiltered the operations through List and
-- Get; Cloud/Ledger has their sequences, against a ledger of provider ids, Cloud/Foreign two providers on one
-- account, and Cloud/Partial a listing in which details cannot be read. Cloud/Asked, Cloud/Sent and
-- Cloud/Outcome write out what Create asks UpCloud for, what it returns and how it can end, with the proof
-- in Cloud/Ends; Startup/Wiring what a successful start consists of; NodeClass/Undrifted which claims a
-- pass stamps.
--
-- How the code is modelled. A controller takes the answers of the API server as a record and gives a
-- `Run`: the calls that change state, in their order, and the result. The cloud provider, the instance
-- provider and the certificates are `Step`s on a world of any type, which the services and all other
-- actors share; the API server, UpCloud's API and the cryptography of Go are records of operations on
-- that world. An error is a value of `Kube.Error`; an error of UpCloud is the text that `Error()` gives.
-- Times are integers of nanoseconds, with time.Since stopped and `-` wrapped at 64 bits; resource
-- amounts are integers converted to int64 as the code converts them. A Go map is an association list,
-- and what depends on the arbitrary order of a map stands for one such order. The bytes of a string
-- are a list of numbers where the code looks at them. Log lines are left out.
--
-- Parameters: hashstructure's digest, the library's deep copies of metadata and conditions (which give
-- equal values), operatorpkg's conditions (with the one hypothesis, where it is used, that setting Ready
-- to true twice is setting it once), time.Parse and Format for RFC 3339 (with the one hypothesis that
-- parsing a formatted time gives its seconds), time.ParseDuration, the environment, the YAML encoder and
-- decoder, `%d`, `%q`, RSA, X.509 and PEM, the manager, and the services. UpCloud's documented answers are
-- hypotheses of the theorems that say so: `IsDocumented` to the stop and the deletion of one server,
-- `IsFleet` for an account that nobody else uses meanwhile, and in which the list, and the details of each
-- server held, are read without an error. `IsQuiet` and `IsPure` say that what the API
-- server and the cryptography do for a certificate does not change the account, and `IsTimed` that a pause
-- takes the two seconds that it is asked for.
--
-- Bounds: the poll for a signed certificate has 46 turns, since the pauses of 2 seconds leave no more
-- in the 90 seconds of the deadline; a turn that finds the deadline passed ends earlier. All other loops
-- run over lists.
--
-- Not modelled: the registration with the Kubernetes scheme, and Karpenter's own controllers, which
-- `start` stands for; GetSupportedNodeClasses. Outside Api/Copy objects are values, without addresses: the
-- controllers write to no storage settings, which are all that a deep copy shares. The hash of a claim is
-- compared as text, not what hashstructure computes. The order in which Go walks a map is one order.
pub mod Base
pub mod Kube
pub mod Api
pub mod Ttl
pub mod UserData
pub mod Drift
pub mod NodeClass
pub mod Plans
pub mod Instance
pub mod InstanceTypes
pub mod Certs
pub mod Cloud
pub mod Startup
