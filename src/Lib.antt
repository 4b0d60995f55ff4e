-- ===== src/Lib.antt =====
-- A model of the Streamline Kubernetes operator, and what makes its controllers correct.
--
-- The operator watches three resources and drives the cluster towards them. Its parts, and the files
-- that model them:
--   * src/controllers/topic.rs: TopicController. `unsupported_fields` is Gate, `parse_topic_state` and
--     `evaluate_sync` are Sync, the status builders are Statuses, the HTTP exchange
--     (`create_or_update_topic`, `fetch_topic_state`) is Topics, and `reconcile` with everything below
--     it is Reconcile, over the calls of Calls.
--   * src/controllers/cluster.rs: ClusterController. `render_config` and the volumes are Config, the
--     rendered objects are Workloads, the status builders are Statuses, and `reconcile` with everything
--     below it is Reconcile, which also holds `reconcile_hpa` and `delete_hpa` of
--     src/controllers/autoscaling.rs. Addresses is about how the rendered objects refer to each other.
--   * src/controllers/autoscaling.rs: Autoscaling. `build_hpa` is Hpa, `generate_recommendation` Recommend.
--   * src/controllers/scale_to_zero.rs: ScaleToZero, the KEDA part in its child Keda.
--   * src/controllers/user.rs: UserController.
--   * src/controllers/mod.rs: Controllers (the watch scope and the error policy).
--   * src/controllers/operator_hub.rs: OperatorHub, whose `install` is split where it changes locks; the
--     read-only operations are Listings.
--   * src/leader_election.rs: LeaderElection. Its child Store puts any number of replicas around one Lease.
--   * src/health.rs: Health, one store at a time. src/main.rs: its child Process, where the stores of `main`,
--     of the controllers and of the lease renewal interleave.
--   * src/crd: Crd, with the resources without a controller in Preview and src/crd/generate.rs in
--     Generate; `ClusterSpec::validate` is Validate.
--   * src/bin/validate-cloud-fixture.rs: CloudFixture.
--   * src/conditions.rs: Conditions; src/metrics.rs: Metrics (`render` in Render); src/upgrade.rs:
--     Upgrade; src/error.rs: Error. What the controllers share about their status is Status.
-- Base holds what these share: tests, integers, floats, texts, maps, finalizers.
--
-- A reconciler is an action of Runtime: it reads and extends the trace of the calls made so far and the
-- process-wide metrics, and ends in a result. The Kubernetes API server, the Streamline server, the JSON
-- parser and the clock are not in the repository: what they answer is a parameter, a function of the
-- calls made before, so that a theorem holds for every answer and every change of the world between two
-- calls. Runtime/Keeps and Runtime/Traces hold the rules by which a claim on the trace goes through an
-- action. One pass of a reconciler is modelled; the work queue calls it again, with the object as it is
-- by then.
--
-- Integers: i32 and i64 are ℤ of Base/Int; the counters of the metrics wrap at 2 ^ 64, the lease
-- transitions at 2 ^ 31, as a release build does. A map is a list of entries in the order of its keys.
-- Fuel: `acquire` of LeaderElection loops for ever in the source; here it makes as many attempts as it
-- is given, and the theorem on it says which number is enough. The printing of a number n takes n as
-- fuel, which is more than it has digits. A division by zero, which panics, is `none` in Autoscaling.
-- f64 is a parameter, a record of the operations that the code uses (Base/Float), so that no theorem
-- rests on how they round.
--
-- Not modelled: logging, flag parsing and sockets (I/O); the schemas that the derive macros
-- make of the resources, and the printing and parsing of YAML and JSON, which are parameters where
-- something depends on them.
pub mod Autoscaling
pub mod Base
pub mod CloudFixture
pub mod ClusterController
pub mod Conditions
pub mod Controllers
pub mod Crd
pub mod Error
pub mod Health
pub mod LeaderElection
pub mod Metrics
pub mod OperatorHub
pub mod Runtime
pub mod ScaleToZero
pub mod Status
pub mod Tests
pub mod TopicController
pub mod Upgrade
pub mod UserController
pub mod Validate
