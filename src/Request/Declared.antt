-- ===== src/Request/Declared.antt =====
-- What the checks of the path, the query and the body let through.
use rustmistmcp.Prelude.{
  ◌≡◌, refl, sym, subst, ◌↔◌, inl, inr, Bool, true, false, List, [], ◌∷◌, Option, none, some,
  String, ok, any, arith, eq_iff, str_eq, All, In, Option-cases,
}
use rustmistmcp.Prelude.Maps
use rustmistmcp.Json.{Value}
use rustmistmcp.Catalog.{MistParameter, MistOperation}
use rustmistmcp.Request.{MistRequest}
use rustmistmcp.Request.Checks.{
  Judge, to_mist, SchemaSlot, request_body, request_parameter, keys, declared_names, first_extra,
  validate_schema, validate_parameter, validate_parameter_list, validate_parameter_set,
  validate_json_body,
}

module _ {A : Type 0} (same : A → A → Bool)
    (same_iff : (a b : A) → (same a b ≡ true) ↔ (a ≡ b)) where
  any_same_iff : (x : A) (xs : List A) → (any (λ y. same y x) xs ≡ true) ↔ In x xs
  any_same_iff x [] = ground arith
  any_same_iff x (y ∷ xs) = ground (arith, same_iff y x, any_same_iff x xs)

first_extra_iff :
    (names declared : List String)
    → (first_extra names declared ≡ none) ↔ All (λ name. In name declared) names
unfolding first_extra
first_extra_iff [] declared = ground arith
first_extra_iff (name ∷ names) declared =
    ground (arith, any_same_iff str_eq eq_iff name declared, first_extra_iff names declared)

module _ (judge : Judge) where
  -- The value is one that the schema describes.
  abbrev pub Fits : String → SchemaSlot → Value → Value → Type 0
  Fits operation slot schema value = judge operation slot schema value to_mist ≡ some none

  -- A parameter of the location: its value fits its schema, or it is optional and has none.
  abbrev pub ParameterFits : String → String → MistParameter → Option Value → Type 0
  ParameterFits operation location p none = p.required ≡ false
  ParameterFits operation location p (some value) =
      Fits operation (request_parameter location p.name) p.schema value

  abbrev pub LocationFits : MistOperation → String → List (String × Value) → Type 0
  LocationFits operation location supplied =
      All (λ name. In name (declared_names location operation.parameters)) (keys supplied)
      × All
          (λ p.
            p.location ≡ location
            → ParameterFits operation.operation_key location p (Maps.get p.name supplied))
          operation.parameters

  abbrev pub BodyFits : MistOperation → Option Value → Type 0
  BodyFits operation none = operation.request_body_required ≡ false
  BodyFits operation (some value) =
      (schema : Value) × (Maps.get "application/json" operation.request_schemas ≡ some schema)
      × Fits operation.operation_key request_body schema value

  schema_iff :
      (r : MistRequest) (operation : String) (slot : SchemaSlot) (schema value : Value)
      → (validate_schema judge r operation slot schema value ≡ ok tt)
        ↔ Fits operation slot schema value
  unfolding validate_schema
  schema_iff r operation slot schema value =
      elim (Option-cases (judge operation slot schema value to_mist)) [
        | inl e ↦ ground (arith, e)
        | inr (none, e) ↦ ground (arith, e)
        | inr (some details, e) ↦ ground (arith, e)
      ]

  parameter_iff :
      (r : MistRequest) (operation location : String) (p : MistParameter) (value : Option Value)
      → (validate_parameter judge r operation location p value ≡ ok tt)
        ↔ ParameterFits operation location p value
  unfolding validate_parameter
  parameter_iff r operation location p none = ground arith
  parameter_iff r operation location p (some value) =
      schema_iff r operation (request_parameter location p.name) p.schema value

  parameter_list_iff :
      (r : MistRequest) (operation location : String) (supplied : List (String × Value))
      (ps : List MistParameter)
      → (validate_parameter_list judge r operation location supplied ps ≡ ok tt)
        ↔ All
            (λ p.
              p.location ≡ location → ParameterFits operation location p (Maps.get p.name supplied))
            ps
  unfolding validate_parameter_list
  parameter_list_iff r operation location supplied [] = ground arith
  parameter_list_iff r operation location supplied (p ∷ ps) = ground (
    arith,
    eq_iff p.location location,
    parameter_iff r operation location p (Maps.get p.name supplied),
    parameter_list_iff r operation location supplied ps,
  )

  pub parameter_set_iff :
      (r : MistRequest) (operation : MistOperation) (location : String)
      (supplied : List (String × Value))
      → (validate_parameter_set judge r operation location supplied ≡ ok tt)
        ↔ LocationFits operation location supplied
  unfolding validate_parameter_set
  parameter_set_iff r operation location supplied = ground (
    arith,
    first_extra_iff (keys supplied) (declared_names location operation.parameters),
    parameter_list_iff r operation.operation_key location supplied operation.parameters,
  )

  declared_body_iff :
      (r : MistRequest) (operation : MistOperation) (value : Value) (found : Option Value)
      → Maps.get "application/json" operation.request_schemas ≡ found
      → r.json ≡ some value
      → (validate_json_body judge r operation ≡ ok tt) ↔ BodyFits operation (some value)
  unfolding validate_json_body
  declared_body_iff r operation value none e given =
      (λ h. ground (arith, e, given), λ (schema, found, fits). ground (arith, e, found))
  declared_body_iff r operation value (some schema) e given = (
    λ h. (
      schema,
      e,
      (schema_iff r operation.operation_key request_body schema value).0 (ground (arith, e, given)),
    ),
    λ (other, found, fits).
        ground
          (arith, e, given, found, schema_iff r operation.operation_key request_body other value),
  )

  pub json_body_iff :
      (r : MistRequest) (operation : MistOperation)
      → (validate_json_body judge r operation ≡ ok tt) ↔ BodyFits operation r.json
  unfolding validate_json_body
  json_body_iff r operation = elim (Option-cases r.json) [
    | inl missing ↦ ground (arith, missing)
    | inr (value, given) ↦
        subst (λ b. (validate_json_body judge r operation ≡ ok tt) ↔ BodyFits operation b)
          (sym given)
          (declared_body_iff r operation value
            (Maps.get "application/json" operation.request_schemas) refl given)
  ]
