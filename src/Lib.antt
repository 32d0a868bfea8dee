-- ===== src/Lib.antt =====
-- A verification library of ETOS, the Eiffel test orchestration system: the controllers of a Kubernetes
-- operator that turns test runs into environments, and the providers that make those.
--
-- The parts, and how they interact. A test run makes environment requests; the controller of environment
-- requests checks their providers, starts a job that provides environments, follows that job by its
-- status and the termination logs of its pods, and releases everything of a request that is deleted. The
-- job splits the tests of a request over the environments, one slot for each. The controller of
-- environments takes the resources of an environment over, enforces its deadline, starts the job that
-- releases it and lets its resources go.
--
-- - Prelude: numbers, texts, lists and the case splits that all modules share.
-- - Kube: what the controllers use of Kubernetes. The functions of apimachinery and controller-runtime on
--   conditions, finalizers and errors are the fields of `Library`; `IsLawful` states the documented
--   behaviour that theorems rely on, and Kube/Example.antt has an instance. A controller's action
--   (Kube/Monad.antt) passes on the state of the API server, about which nothing is assumed, and the
--   list of the calls made that change something, last first. An update is a call; what it returns is the
--   server's answer. Every call may fail, and may answer differently each time.
-- - Api: the resources of api/v1alpha1 and api/v1alpha2, with the fields that modelled code reads, and
--   `Var.Get` of common_types.go.
-- - Jobs: the job manager of internal/controller/jobs.
-- - Controller: internal/controller/utilities.go, providers.go and the package status.
-- - EnvironmentRequest: internal/controller/environmentrequest_controller.go. Reconcile is
--   `reconcile_request`, the method reconcile is `reconcile`, reconcileEnvironmentProvider is
--   `reconcile_environment_provider` with its switch in `follow_provider`, reconcileDeletion is
--   `announce_release` and then `release`.
-- - Releasers: internal/release, the containers that release the resources of an environment.
-- - Environment: internal/controller/environment_controller.go. Reconcile is `reconcile_request`, the
--   method reconcile is `reconcile` with its switch in `follow_release`; takeOwnership,
--   reconcileEnvironment and releaseProviders are in Environment/Resources.antt, releaseJob in
--   Environment/ReleaseJob.antt, the deadline in Environment/TimeOut.antt. The code changes the
--   environment in place, so `reconcile` returns it.
-- - TestRun: internal/controller/testrun_controller.go. Reconcile is `reconcile_test_run`, the method
--   reconcile is `reconcile`; reconcileActiveStatus is in TestRun/Active.antt, reconcileSuiteRunner with
--   its switch `follow_jobs` in TestRun/SuiteRunner.antt, reconcileEnvironmentRequest and checkEnvironment
--   in TestRun/Environments.antt, createEnvironmentRequests and deleteEnvironmentRequests in
--   TestRun/Requests.antt, the two branches of Reconcile in TestRun/Deadline.antt and
--   TestRun/Retained.antt. The order in which Go goes through a map is a parameter. A nil pointer that
--   Reconcile reads is a result of its own.
-- - Resource: internal/controller/iut_controller.go, logarea_controller.go and
--   executionspace_controller.go. The three are the same code but for their words and for the completion
--   time of an IUT, so the definitions take the kind; `reconcile_iut`, `reconcile_log_area` and
--   `reconcile_execution_space` are the three of Reconcile. Resource/Provider.antt is
--   internal/controller/provider_controller.go.
-- - Conversion: api/v1beta1/common_conversion.go, with both versions of a suite in Conversion/Types.antt,
--   api/v1beta1/testrun_conversion.go in Conversion/TestRun.antt and
--   api/v1beta1/environment_conversion.go in Conversion/Environment.antt. `x_from` is convertFrom or
--   ConvertFrom, `x_to` is convertTo or ConvertTo.
-- - Splitter: pkg/splitter/roundrobin.go, and the loop that adds the tests in cmd/environmentprovider.
-- - Provision: cmd/environmentprovider/main.go, Provision, createEnvironments and CreateEnvironment; the
--   result says whether the code returned an error or panicked.
-- - Names: toRFC1123 of pkg/provider/provider.go.
--
-- Every loop of the modelled code is a structural recursion, over a list or a number of rounds, so there is no fuel. The counter
-- of the splitter wraps at 2 ^ 64, its conversion to a signed index is written out, and so is the wrap of
-- the deadline of an environment request, a sum of two int64.
--
-- Not modelled: logging, tracing, the registration of watches, the resources that a container requests,
-- and the parts of the repository that no module above names.
pub mod Prelude
pub mod Kube
pub mod Api
pub mod Jobs
pub mod Controller
pub mod EnvironmentRequest
pub mod Releasers
pub mod Environment
pub mod Splitter
pub mod Provision
pub mod Names
pub mod TestRun
pub mod Resource
pub mod Conversion
