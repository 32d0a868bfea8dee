-- ===== src/Jobs/Types.antt =====
-- internal/controller/jobs/types.go, and what the job manager takes from outside.
use etos.Prelude.{String, List, Option}
use etos.Kube.Monad.{Result}
use etos.Kube.Pod.{Job, Pod, JobSpec}

-- A termination log is read from a pod, so a conclusion or a verdict may be any text.
pub record JobResult : Type 0 where
  pub conclusion : String
  pub verdict : String
  pub description : String

pub data JobStatus : Type 0 where
  failed successful active none : JobStatus

abbrev pub conclusion_successful : String
conclusion_successful = "Successful"

abbrev pub conclusion_failed : String
conclusion_failed = "Failed"

abbrev pub verdict_failed : String
verdict_failed = "Failed"

abbrev pub verdict_inconclusive : String
verdict_inconclusive = "Inconclusive"

abbrev pub verdict_none : String
verdict_none = "None"

-- The calls of the API server, and the decoding of a termination log.
pub record JobApi (W E Time : Type 0) : Type 0 where
  -- The jobs of a namespace whose index at the owner key is the name.
  pub list_jobs : String → String → String → W → Result E (List (Job Time)) × W
  -- The pods of a namespace with the job's label.
  pub list_pods : String → String → W → Result E (List (Pod Time)) × W
  pub create_job : JobSpec → W → Option E × W
  pub delete_job : Job Time → W → Option E × W
  -- json.Unmarshal into a Result.
  pub parse_result : String → Option JobResult

-- How the two calls that change something stand in the log of calls.
pub record JobLog (C : Type 0) : Type 0 where
  pub created : JobSpec → C
  pub deleted : String → C
