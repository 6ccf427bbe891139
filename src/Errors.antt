-- ===== src/Errors.antt =====
-- internal/core/errors.go: the sentinel errors. An error made by `%w` around a sentinel is that
-- sentinel for `errors.Is`, so the text that is wrapped around it is left out.
pub data Error : Type 0 where
  invalid_config invalid_shard_count invalid_worker_count invalid_queue_size invalid_lane : Error
  invalid_lane_quota missing_lane_quotas invalid_quota_policy quota_policy_version_conflict : Error
  quota_too_large invalid_admission_policy invalid_overload_policy : Error
  invalid_adaptive_quota_config invalid_hot_key_config invalid_per_key_admission_config : Error
  invalid_lane_class invalid_job invalid_key nil_job_run queue_full not_started : Error
  queue_already_started stopped invalid_lane_id : Error

pub Error-discrete : Discrete Error
Error-discrete = hlevel
