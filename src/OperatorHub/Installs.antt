-- ===== src/OperatorHub/Installs.antt =====
-- What `install` of src/controllers/operator_hub.rs answers, and what it leaves in the hub.
use streamline_operator.Base.{◌<◌, String, true, none, some, ◌≡◌, ◌≢◌, ok, length}
use streamline_operator.Base.Map.{lookup}
use streamline_operator.OperatorHub.{
  Hub, HubOperator, InstalledOperator, install, uninstall, running,
}

-- The registry lists the operator, as a verified one where that is required; it is not installed, and
-- there is room for it.
pub record IsInstallable (hub : Hub) (name : String) (op : HubOperator) : Type 0 where
  pub listed : lookup name hub.operators ≡ some op
  pub trusted : hub.config.require_verified ≡ true → op.verified ≡ true
  pub free : length hub.installed < hub.config.max_installed
  pub absent : lookup name hub.installed ≡ none

-- The answer is the operator that was installed, the hub finds that one under the name and what it found
-- before under any other, and uninstalling it leads back to the hub as it was.
pub record Installs (now name : String) (hub : Hub) (r : InstalledOperator) : Type 0 where
  pub op : HubOperator
  pub installable : IsInstallable hub name op
  pub answer : r ≡ record {
    name = name;
    version = op.version;
    namespace = "streamline-system";
    status = running;
    installed_at = now;
    last_reconcile_at = none;
  }
  pub found : lookup name (install now name hub).1.installed ≡ some r
  pub others :
      (other : String)
      → name ≢ other
      → lookup other (install now name hub).1.installed ≡ lookup other hub.installed
  pub undone : uninstall name (install now name hub).1 ≡ (ok tt, hub)
