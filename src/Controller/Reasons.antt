-- ===== src/Controller/Reasons.antt =====
-- internal/controller/status/status.go: the types and the reasons of the conditions.
use etos.Prelude.{String}

abbrev pub status_available : String
status_available = "Available"

abbrev pub status_ready : String
status_ready = "Ready"

abbrev pub status_active : String
status_active = "Active"

abbrev pub status_environment : String
status_environment = "Environment"

abbrev pub status_suite_runner : String
status_suite_runner = "SuiteRunner"

abbrev pub reason_pending : String
reason_pending = "Pending"

abbrev pub reason_starting : String
reason_starting = "Starting"

abbrev pub reason_active : String
reason_active = "Active"

abbrev pub reason_failed : String
reason_failed = "Failed"

abbrev pub reason_timed_out : String
reason_timed_out = "DeadlineExceeded"

abbrev pub reason_completed : String
reason_completed = "Completed"
