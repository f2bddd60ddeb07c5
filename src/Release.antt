-- ===== src/Release.antt =====
-- What the code reads and writes of a Helm release (pkg/helm/pkg/release), and its identifier, which
-- does not depend on the status or on the times.
pub mod History
use nelm.Base.{String, append_text, decimal, ℕ}

pub data Status : Type 0 where
  unknown deployed uninstalled superseded failed uninstalling pending_install pending_upgrade
        pending_rollback :
      Status

pub record HelmRelease : Type 0 where
  pub name : String
  pub namespace : String
  pub version : ℕ
  pub status : Status
  -- Info.FirstDeployed and Info.LastDeployed
  pub first_deployed : ℕ
  pub last_deployed : ℕ

-- fmt.Sprintf("%s:%s:%d", namespace, name, revision)
unfoldable pub release_id : String → String → ℕ → String
release_id namespace name revision =
    append_text namespace (append_text ":" (append_text name (append_text ":" (decimal revision))))
