-- ===== src/Kube/Pod.antt =====
-- The parts of a Job and of a Pod that the controllers write or read.
use etos.Prelude.{ℕ, String, List, Option}

-- corev1.Container; what it requests of memory and processor is left out.
pub record Container : Type 0 where
  pub name : String
  pub image : String
  pub env : List (String × String)
  pub env_from : List String
  pub command : List String
  pub args : List String

-- batchv1.Job, as a controller creates it. The pod template has the job's labels.
pub record JobSpec : Type 0 where
  pub name : String
  pub generate_name : String
  pub namespace : String
  pub labels : List (String × String)
  pub ttl_seconds_after_finished : Option ℕ
  pub backoff_limit : ℕ
  pub template_name : String
  pub grace_period : ℕ
  pub service_account_name : String
  pub restart_policy : String
  pub init_containers : List Container
  pub containers : List Container

-- batchv1.JobCondition. `kind` is its field Type.
pub record JobCondition : Type 0 where
  pub kind : String
  pub status : String

pub record Job (Time : Type 0) : Type 0 where
  pub name : String
  pub namespace : String
  pub deletion_timestamp : Option Time
  pub conditions : List JobCondition

-- corev1.ContainerStatus: `terminated` is the message of State.Terminated, if there is one.
pub record ContainerStatus : Type 0 where
  pub name : String
  pub terminated : Option String

pub record Pod (Time : Type 0) : Type 0 where
  pub creation_timestamp : Time
  pub container_statuses : List ContainerStatus
  pub init_container_statuses : List ContainerStatus
