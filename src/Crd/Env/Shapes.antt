-- ===== src/Crd/Env/Shapes.antt =====
-- Exactly which environment entries resolve, and to what.
use streamline_operator.Base.{
  String, ◌≡◌, ◌↔◌, refl, subst, inl, inr, false, Option, none, some, ok, arith, Bool-cases,
}
use streamline_operator.Base.Text.{is_blank}
use streamline_operator.Crd.Env.{
  EnvVar, EnvVarSource, EnvVarRef, SecretKeyRef, ConfigMapKeyRef, secret, config_map,
  resolve_source, resolve_value, resolve_reference,
}

abbrev of_secret : SecretKeyRef → EnvVarSource
of_secret s = record { secret_key_ref = some s; config_map_key_ref = none }

abbrev of_config_map : ConfigMapKeyRef → EnvVarSource
of_config_map c = record { secret_key_ref = none; config_map_key_ref = some c }

-- The entry is a literal, or names one key of one Secret or one ConfigMap, and nothing in it that
-- has to be filled in is blank.
pub data Resolves (env : EnvVar) : Option EnvVarRef → Type 0 where
  literal :
      (v : String)
      → is_blank env.name ≡ false
      → env.value ≡ some v
      → env.value_from ≡ none
      → Resolves env none
  from_secret :
      (s : SecretKeyRef)
      → is_blank env.name ≡ false
      → env.value ≡ none
      → env.value_from ≡ some (of_secret s)
      → is_blank s.name ≡ false
      → is_blank s.key ≡ false
      → Resolves env (some (secret s))
  from_config_map :
      (c : ConfigMapKeyRef)
      → is_blank env.name ≡ false
      → env.value ≡ none
      → env.value_from ≡ some (of_config_map c)
      → is_blank c.name ≡ false
      → is_blank c.key ≡ false
      → Resolves env (some (config_map c))

pub Resolves-ok : (env : EnvVar) {r : Option EnvVarRef} → Resolves env r → resolve_source env ≡ ok r
unfolding resolve_source
Resolves-ok env (literal v a b c) = rw (a, b, c)
Resolves-ok env (from_secret s a b c d e) = rw (a, b, c, d, e)
Resolves-ok env (from_config_map s a b c d e) = rw (a, b, c, d, e)

module _ (env : EnvVar) (named : is_blank env.name ≡ false) where
  reference-Resolves :
      (s : Option SecretKeyRef) (c : Option ConfigMapKeyRef) {r : Option EnvVarRef}
      → env.value ≡ none
      → env.value_from ≡ some (record { secret_key_ref = s; config_map_key_ref = c })
      → resolve_reference s c ≡ ok r
      → Resolves env r
  unfolding resolve_reference
  reference-Resolves (some s) (some c) v f h = cc
  reference-Resolves none none v f h = cc
  reference-Resolves (some s) none v f h =
      subst (Resolves env) (ground arith) (from_secret s named v f (ground arith) (ground arith))
  reference-Resolves none (some c) v f h =
      subst (Resolves env) (ground arith)
        (from_config_map c named v f (ground arith) (ground arith))

  value-Resolves :
      (v : Option String) (f : Option EnvVarSource) {r : Option EnvVarRef}
      → env.value ≡ v
      → env.value_from ≡ f
      → resolve_value v f ≡ ok r
      → Resolves env r
  unfolding resolve_value
  value-Resolves (some v) none ev ef h = subst (Resolves env) (ground arith) (literal v named ev ef)
  value-Resolves none none ev ef h = cc
  value-Resolves (some v) (some source) ev ef h = cc
  value-Resolves none (some source) ev ef h =
      reference-Resolves source.secret_key_ref source.config_map_key_ref ev ef h

ok-Resolves : (env : EnvVar) {r : Option EnvVarRef} → resolve_source env ≡ ok r → Resolves env r
unfolding resolve_source
ok-Resolves env h = elim (Bool-cases (is_blank env.name)) [
  | inl blank ↦ absurd (ground arith)
  | inr named ↦ value-Resolves env named env.value env.value_from refl refl (rw named at h)
]

-- An entry resolves to `r` exactly if it has one of the three supported shapes: a named literal, or
-- a named reference to one key of one Secret or ConfigMap with no blank part, `r` being that
-- reference.
pub resolve_source_iff :
    (env : EnvVar) (r : Option EnvVarRef) → (resolve_source env ≡ ok r) ↔ Resolves env r
resolve_source_iff env r = (ok-Resolves env, Resolves-ok env)
