-- ===== src/Lib.antt =====
-- nelm deploys Helm charts to Kubernetes. This library models its planner: what a release, a plan
-- (a graph of operations) and the history of a release are, how a plan is built and optimized, and
-- how it is executed.
--
-- The parts, from the input of a deployment to its graph:
--   * pkg/common/common.go (Common): the stages in which a release is deployed, their order
--     (StagesSortHandler, in Common/Order), resource policies and deploy types.
--   * pkg/resource/spec (Spec): the identity of a resource (ID), matchers (Match), tests of kinds,
--     and (Spec/Sort) the order of sort.go.
--   * pkg/resource/resource.go, dependency.go (Resource): the records of the resources of a release;
--     Resource/Sort is sort.go, with weights compared as pointers, and Resource/Metadata what
--     metadata.go reads from the annotations on policies, deletion and ownership (Base/Fields is what
--     it uses of Go's strings and regular expressions); Resource/DeployConditions is its
--     deployConditions with the validation of the annotations that it reads.
--   * pkg/release/history.go (Release/History): CreateRelease, UpdateRelease, DeleteRelease,
--     FindRevision and FindAllDeployed on the releases in memory. The storage is a record of its
--     answers. A History is a value here: what a caller that keeps a pointer to a release of it can
--     see of a later change is not modelled.
--   * pkg/plan/release_info.go (Plan/ReleaseInfos): BuildReleaseInfos.
--   * pkg/plan/resource_info.go (Plan/Infos): the passes over the infos of a release, and
--     (Plan/Infos/Decisions) resourceInstallType and the decisions on readiness and clean-up, and
--     (Plan/Infos/Deletions) what is deleted, by buildDeletableResourceInfo, mustDeleteOnFailedDeploy
--     and mustDeleteOnSuccessfulDeploy;
--     Plan/Infos/Sort is pkg/plan/sort.go.
--   * pkg/plan/operation.go, operation_config.go (Plan/Operation): operations and their identifiers.
--   * pkg/plan/plan.go (Plan/Graph, Plan/Chain): the plan and planChainBuilder. The graph is a third
--     party's (github.com/dominikbraun/graph): GraphLib is its operations and IsGraphLib the behaviour
--     that it documents. `do_chain` is Do; Plan/Chain/Placement says what it is for a chain to stand
--     in a graph, and Plan/Chain/Steps relates Do to it.
--   * pkg/plan/plan_build.go (Plan/Build): addMainStages and addWeightedSubStages (Stages),
--     addReleaseOperations (Releases), addDeleteResourcesOps and addInstallResourceOps (Resources),
--     connectInternalDeployDependencies and connectInternalDeleteDependencies (Dependencies), and
--     BuildPlan up to Optimize (Compose: `build_graph`); BuildFailurePlan up to Optimize (Failure).
--   * pkg/plan/plan.go, Optimize and SquashOperation (Plan/Optimize): GraphEdits is what they call of
--     the graph library beside GraphLib, and IsGraphEdits what that documents.
--   * pkg/plan/plan_execute.go (Plan/Execute): ExecutePlan and its workers as steps on one state
--     (`advance` is the next step of the scheduler, the other constructors of Step are the workers'
--     and the cancellation from outside), in any interleaving; Execute/Exec is execOp over the calls of
--     the cluster, the trackers and the history.
--   * Plan/Deploy puts BuildPlan, Optimize and ExecutePlan together.
--   * Examples: a graph library as a list of vertices, a small release, and the theorems applied.
--
-- Conventions. A Go result with an error is a Result: a value, an error, or a panic (also for
-- lo.Must). An error keeps the fixed words of its message and not the names that it interpolates. A Go
-- string whose values users supply is a String; a pointer to a weight keeps its address beside its
-- value. The order of a range over a Go map is a parameter that keeps the entries (KeepsEntries), and
-- copystructure.Copy a parameter whose copies are equal to the original (IsCopy). Loops are
-- recursion on the list that they range over; `decimal` has one step of fuel more than its number,
-- which has at most as many digits as its value. Infos and releases are values: the code changes them
-- through pointers only where the model returns the changed list. Union of dependency pointers is
-- append: a dependency that occurs twice is connected twice, which changes nothing.
--
-- In an execution, what is indivisible is what no other part can see in between: one receive, one
-- submission, the end of an operation together with the cancellation that its error causes. Every
-- operation may succeed or fail. An operation's status is a function of its identifier, which the code
-- keeps in the operation. The recursion of squashUselessMetaOperations is a relation (SquashesUseless).
--
-- In Plan/Infos/Decisions two answers are parameters: whether an error is about immutable fields
-- (pkg/kube/error.go over the Kubernetes error types), and the length of the patch between two cleaned
-- objects (CleanUnstruct and the jsondiff library). In Plan/Infos/Deletions what KubeClienter.Get
-- returns and the tests of its error are.
--
-- Not modelled: the encodings of a plan, the progress report, the managed-fields repair, the
-- annotations on weights, dependencies and tracking, cluster access, tracking, chart loading and
-- rendering, the command line, and the copy of Helm under pkg/helm except for the release's data and
-- identifier.
pub mod Base
pub mod Common
pub mod Spec
pub mod Resource
pub mod Release
pub mod Plan
pub mod Examples
