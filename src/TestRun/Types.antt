-- ===== src/TestRun/Types.antt =====
-- api/v1alpha1: the test run and its cluster, as far as the reconciler of test runs reads them; what
-- that reconciler calls, and how its calls stand in the log.
--
-- A metav1.Duration is a `Span`. An image without its pull policy is a text. The pointers SuiteRunner,
-- TestRunner and EnvironmentProvider of a test run and the two message buses of a cluster are taken
-- to be set.
use etos.Prelude.{Bool, true, false, Option, none, some, String, List}
use etos.Prelude.Int.{ℤ}
use etos.Kube.{Condition, ObjectMeta, Library}
use etos.Kube.Monad.{Result, ok, err, M, ◌>>=◌, pure, tell}
use etos.Kube.Pod.{JobSpec}
use etos.Jobs.Types.{JobApi, JobLog}
use etos.Api.{EnvironmentRequest, EnvironmentRequestSpec, OpenTelemetry, Providers, Test}
use etos.Api.Values.{Var, RabbitMq}
use etos.Controller.{GetProvider}

pub record Suite : Type 0 where
  pub name : String
  pub tests : List Test
  pub dataset : Option String

pub record Retention (Span : Type 0) : Type 0 where
  pub failure : Option Span
  pub success : Option Span

pub record TestRunSpec (Span : Type 0) : Type 0 where
  pub cluster : String
  pub schema_version : String
  pub id : String
  pub artifact : String
  pub retention : Retention Span
  pub suite_runner : String
  pub test_runner_version : String
  pub environment_provider : String
  pub identity : String
  pub providers : Providers
  pub suites : List Suite
  pub suite_source : String
  pub deadline : ℤ

-- corev1.ObjectReference, of which nothing is read.
pub record ObjectReference : Type 0 where
  pub kind : String
  pub name : String

pub record TestRun (Time Span : Type 0) : Type 0 where
  pub metadata : ObjectMeta Time
  pub spec : TestRunSpec Span
  pub conditions : List (Condition Time)
  pub environment_requests : List ObjectReference
  pub completion_time : Option Time
  pub verdict : String

-- ETOSConfig, of the texts and the key that are passed on.
pub record EtosConfig : Type 0 where
  pub event_data_timeout : String
  pub test_suite_timeout : String
  pub environment_timeout : String
  pub encryption_key : Var
  pub etos_api_url : String
  pub etos_sse_url : String
  pub routing_key_tag : String

pub record Cluster : Type 0 where
  pub name : String
  pub namespace : String
  pub eiffel_message_bus : RabbitMq
  pub etos_message_bus : RabbitMq
  pub config : EtosConfig
  pub event_repository_host : String
  pub etcd_host : String
  pub etcd_port : String
  pub open_telemetry : OpenTelemetry

-- events.Result, the content of a shutdown event.
pub record Shutdown : Type 0 where
  pub conclusion : String
  pub verdict : String
  pub description : String

-- publisher.EventPublisher: Publish of a shutdown event of a test run's id.
abbrev pub EventPublisher : Type 0 → Type 0 → Type 0
EventPublisher W E = String → Shutdown → W → Option E × W

-- An environment request to create.
pub record NewRequest : Type 0 where
  pub generate_name : String
  pub namespace : String
  pub labels : List (String × String)
  pub annotations : List (String × String)
  pub spec : EnvironmentRequestSpec

pub record TestRunApi (W E Time Span : Type 0) : Type 0 where
  pub now : W → Time × W
  -- The clock in seconds: time.Now().Unix().
  pub unix_now : W → ℤ × W
  pub get : String → String → W → Result E (TestRun Time Span) × W
  -- An update returns the object as the server has it then.
  pub update : TestRun Time Span → W → Result E (TestRun Time Span) × W
  pub update_status : TestRun Time Span → W → Result E (TestRun Time Span) × W
  pub delete : TestRun Time Span → W → Option E × W
  pub get_cluster : String → String → W → Result E Cluster × W
  pub get_provider : GetProvider W E Time
  -- messaging.PublisherPool.GetPublisher.
  pub get_publisher : String → RabbitMq → W → Result E (EventPublisher W E) × W
  -- The environment requests of a namespace whose index at the owner key is the name.
  pub list_requests : String → String → W → Result E (List (EnvironmentRequest Time)) × W
  pub create_request : NewRequest → W → Option E × W
  pub delete_request : EnvironmentRequest Time → W → Option E × W
  -- The environments of a namespace with that identifier.
  pub list_environments : String → String → W → Result E (List (ObjectMeta Time)) × W
  pub jobs : JobApi W E Time
  -- ref.GetReference, and ctrl.SetControllerReference of a test run on what it creates.
  pub get_reference : EnvironmentRequest Time → Result E ObjectReference
  pub control_request : TestRun Time Span → NewRequest → Option E
  pub control_job : TestRun Time Span → JobSpec → Option E
  -- Starting the span "start-etos": what is injected of its context. `none` if there is no tracer.
  pub start_span : Option (W → List (String × String) × W)
  -- The text of the baggage with these members, which are taken to be valid.
  pub baggage : List (String × String) → W → String × W
  -- The order in which `range` goes through a map.
  pub range : List (String × List Test) → W → List (String × List Test) × W
  pub new_uuid : W → String × W
  -- strconv.ParseInt, in base 10.
  pub parse_int : String → Option ℤ
  pub has_prefix : String → String → Bool
  pub itoa : ℤ → String
  -- time
  pub unix : ℤ → Time
  pub time_text : Time → String
  pub add : Time → Span → Time
  pub until : Time → Time → Span

-- The calls that change something.
pub data Call (Time Span : Type 0) : Type 0 where
  updated updated_status deleted : TestRun Time Span → Call Time Span
  created_request : NewRequest → Call Time Span
  deleted_request : String → Call Time Span
  created_job : JobSpec → Call Time Span
  deleted_job : String → Call Time Span
  published : String → Shutdown → Call Time Span

abbrev pub job_log : {Time Span : Type 0} → JobLog (Call Time Span)
job_log = record { created = created_job; deleted = deleted_job }

-- What a method returns that reconciles a part of the test run: the test run, which it changes in
-- place, whether it has updated it on the server, and an error.
abbrev pub Step : Type 0 → Type 0 → Type 0 → Type 0
Step E Time Span = TestRun Time Span × Bool × Option E

-- The test run after an update of it.
abbrev pub stored :
    {E Time Span : Type 0}
    → TestRun Time Span
    → Result E (TestRun Time Span)
    → TestRun Time Span × Option E
stored tr (ok tr') = (tr', none)
stored tr (err e) = (tr, some e)

module _ {W E Time Span : Type 0} (api : TestRunApi W E Time Span) where
  -- r.Status().Update, which writes the answer into the test run.
  unfoldable pub update_status :
      TestRun Time Span → M W (Call Time Span) (TestRun Time Span × Option E)
  update_status tr = tell (updated_status tr) (api.update_status tr) >>= λ r. pure (stored tr r)

  -- `return true, r.Status().Update(ctx, testrun)`.
  unfoldable pub finish : TestRun Time Span → M W (Call Time Span) (Step E Time Span)
  unfolding update_status
  finish tr = update_status tr >>= λ r. pure (r.0, true, r.1)

  -- The same if something was changed.
  unfoldable pub finish_if : Bool → TestRun Time Span → M W (Call Time Span) (Step E Time Span)
  unfolding finish
  finish_if true tr = finish tr
  finish_if false tr = pure (tr, false, none)

  -- The publication of a shutdown event, of which an error is only logged.
  abbrev pub publish :
      EventPublisher W E → TestRun Time Span → Shutdown → M W (Call Time Span) (Option E)
  publish publisher tr event = tell (published tr.spec.id event) (publisher tr.spec.id event)

module _ {W E Time Span : Type 0} (L : Library E Time) (api : TestRunApi W E Time Span) where
  -- The same with the errors of a clean-up, which the update's error joins.
  unfoldable pub finish_joined :
      Bool → TestRun Time Span → Option E → M W (Call Time Span) (Step E Time Span)
  unfolding update_status
  finish_joined true tr e = update_status api tr >>= λ r. pure (r.0, true, L.join e r.1)
  finish_joined false tr e = pure (tr, false, e)
