-- ===== src/Crd/Meta.antt =====
-- What the controllers read of a Kubernetes object's metadata; `name_any` is the answer of kube's
-- method of that name.
use streamline_operator.Base.{String, Bool, Option, List, is_some}
use streamline_operator.Base.Int.{ℤ}

pub record ObjectMeta : Type 0 where
  pub name_any : String
  pub namespace : Option String
  pub uid : Option String
  pub deletion_timestamp : Option String
  pub finalizers : Option (List String)
  pub generation : Option ℤ

-- `metadata.deletion_timestamp.is_some()`
unfoldable pub is_deleting : ObjectMeta → Bool
is_deleting meta = is_some meta.deletion_timestamp
