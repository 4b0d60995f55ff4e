-- ===== src/Crd/Env.antt =====
-- src/crd/cluster.rs: the environment entries of a cluster and what each resolves to.
pub mod Shapes
use streamline_operator.Base.{
  String, Bool, true, false, Option, none, some, List, [], ◌∷◌, Result, ok, err, is_some,
  if◌then◌else◌,
}
use streamline_operator.Base.Text.{format, is_blank}

pub record SecretKeyRef : Type 0 where
  pub name : String
  pub key : String

pub record ConfigMapKeyRef : Type 0 where
  pub name : String
  pub key : String

pub record EnvVarSource : Type 0 where
  pub secret_key_ref : Option SecretKeyRef
  pub config_map_key_ref : Option ConfigMapKeyRef

pub record EnvVar : Type 0 where
  pub name : String
  pub value : Option String
  pub value_from : Option EnvVarSource

pub data EnvVarRef : Type 0 where
  secret : SecretKeyRef → EnvVarRef
  config_map : ConfigMapKeyRef → EnvVarRef

-- `incomplete_ref(field, name, key)?` and then the reference.
unfoldable pub incomplete_ref : String → String → String → Result String (Unit {0})
unfolding format
incomplete_ref field name key =
    if is_blank name
    then err (format ("valueFrom." ∷ field ∷ ".name must not be empty" ∷ []))
    else if is_blank key
    then err (format ("valueFrom." ∷ field ∷ ".key must not be empty" ∷ []))
    else ok tt

abbrev pub then_ok : Result String (Unit {0}) → EnvVarRef → Result String (Option EnvVarRef)
then_ok (ok _) r = ok (some r)
then_ok (err e) r = err e

unfoldable pub resolve_reference :
    Option SecretKeyRef → Option ConfigMapKeyRef → Result String (Option EnvVarRef)
unfolding incomplete_ref
resolve_reference (some s) (some c) =
    err "valueFrom must set exactly one of secretKeyRef or configMapKeyRef"
resolve_reference (some s) none = then_ok (incomplete_ref "secretKeyRef" s.name s.key) (secret s)
resolve_reference none (some c) =
    then_ok (incomplete_ref "configMapKeyRef" c.name c.key) (config_map c)
resolve_reference none none =
    err
      "valueFrom must set secretKeyRef or configMapKeyRef; an empty valueFrom would render the variable as an empty string"

unfoldable pub resolve_value :
    Option String → Option EnvVarSource → Result String (Option EnvVarRef)
unfolding resolve_reference
resolve_value (some v) none = ok none
resolve_value none none =
    err "must set value or valueFrom (use value: \"\" for a deliberately empty variable)"
resolve_value (some v) (some source) = err "value and valueFrom are mutually exclusive"
resolve_value none (some source) = resolve_reference source.secret_key_ref source.config_map_key_ref

-- `EnvVar::resolve_source`
unfoldable pub resolve_source : EnvVar → Result String (Option EnvVarRef)
unfolding resolve_value
resolve_source env =
    if is_blank env.name
    then err "name must not be empty"
    else resolve_value env.value env.value_from
