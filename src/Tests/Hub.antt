-- ===== src/Tests/Hub.antt =====
-- The theorems on the operator hub, each at a concrete input.
use streamline_operator.Base.{String, ◌≡◌, ◌≢◌, refl, ok, suc, length, eq_iff}
use streamline_operator.Base.Map.{lookup}
use streamline_operator.OperatorHub.{
  HubConfig, HubOperator, default_config, new_hub, install, install_checks, commit_install, bundled,
  stats, check_updates,
}
use streamline_operator.OperatorHub.Capacity.{
  fresh, installs, IsWithin, Reached-IsWithin, racing_installs_exceed,
}
use streamline_operator.OperatorHub.Installs.{Installs}
use streamline_operator.OperatorHub.Updates.{updates_available-check_updates}

-- A hub that allows one operator.
abbrev small : HubConfig
small = record default_config { max_installed = 1 }

abbrev redis : HubOperator
redis = bundled "redis" "7.0.0" "Redis operator for cache-aside streaming patterns"

abbrev minio : HubOperator
minio = bundled "minio" "5.0.0" "MinIO operator for S3-compatible tiered storage"

redis_passes : install_checks (new_hub small) "redis" ≡ ok redis
unfolding install_checks new_hub lookup
redis_passes = refl

minio_passes : install_checks (new_hub small) "minio" ≡ ok minio
unfolding install_checks new_hub lookup
minio_passes = refl

one_place : suc (length (new_hub small).installed) ≡ (new_hub small).config.max_installed
unfolding new_hub
one_place = refl

apart : ◌≢◌ {A = String} "redis" "minio"
apart e = cc ((eq_iff "redis" "minio").1 e)

Reached-IsWithin_example : IsWithin small (install "11:00" "redis" (new_hub small)).1
Reached-IsWithin_example = Reached-IsWithin (installs "11:00" "redis" fresh)

racing_installs_exceed_example :
    length
      (commit_install "11:01" "minio" minio
        (commit_install "11:00" "redis" redis (new_hub small))).installed
    ≡ suc (new_hub small).config.max_installed
racing_installs_exceed_example =
    racing_installs_exceed (new_hub small) "11:00" "11:01" "redis" "minio" redis minio apart
      redis_passes minio_passes one_place

updates_available-check_updates_example :
    (stats (new_hub small)).updates_available ≡ length (check_updates (new_hub small))
updates_available-check_updates_example = updates_available-check_updates (new_hub small)
