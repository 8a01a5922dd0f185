-- ===== src/Conditions/Constants/Upgrade.antt =====
-- pkg/conditions/conditions.go: the version upgrade, rollback and hardening conditions of Platform.
use Prim.Native.String.{String}

abbrev pub condition_type_version_upgrade_pending : String
condition_type_version_upgrade_pending = "VersionUpgradePending"

abbrev pub reason_version_upgrade_requested : String
reason_version_upgrade_requested = "VersionUpgradeRequested"

abbrev pub reason_version_upgrade_submitted : String
reason_version_upgrade_submitted = "VersionUpgradeSubmitted"

abbrev pub reason_version_upgrade_complete : String
reason_version_upgrade_complete = "VersionUpgradeComplete"

abbrev pub condition_type_version_regression_blocked : String
condition_type_version_regression_blocked = "VersionRegressionBlocked"

abbrev pub reason_version_regression_attempted : String
reason_version_regression_attempted = "VersionRegressionAttempted"

abbrev pub condition_type_hardening_applied : String
condition_type_hardening_applied = "HardeningApplied"

abbrev pub reason_hardening_applied : String
reason_hardening_applied = "HardeningApplied"

abbrev pub reason_hardening_pending : String
reason_hardening_pending = "HardeningPending"

abbrev pub reason_hardening_profile_not_valid : String
reason_hardening_profile_not_valid = "HardeningProfileNotValid"
