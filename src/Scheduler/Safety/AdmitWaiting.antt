-- ===== src/Scheduler/Safety/AdmitWaiting.antt =====
-- src/scheduler/scheduler.cpp, `admit_one_waiting`.
use cc_infer.Scheduler.{Scheduler}
