-- ===== src/WanWrite/Targets.antt =====
-- Each write is paired with the read of the same object.
use rustmistmcp.Prelude.{◌≡◌, refl, sym, ap, ◌∙◌, List, [], ◌∷◌, some, String}
use rustmistmcp.Wan.{
  WanObject, network, service, service_policy, gateway_template, device_profile, get_config,
  object_id_name,
}
use rustmistmcp.Wan.Selectors.{find_choice, some-inj}
use rustmistmcp.WanWrite.{WriteVerb, create, update, write_target}

-- The read of a write target is the one that fetches a single object of that type, under the path
-- parameters that this read takes: the organization, and the object's own identifier.
pub write_target-get_config :
    (object : WanObject) (verb : WriteVerb)
    → ((write_target object verb).read_operation_id ≡ (get_config object).operation_id)
      × ((write_target object verb).id_path_name ≡ object_id_name object)
      × ((get_config object).path_names ≡ "org_id" ∷ (write_target object verb).id_path_name ∷ [])
unfolding write_target get_config object_id_name
write_target-get_config network create = (refl, refl, refl)
write_target-get_config network update = (refl, refl, refl)
write_target-get_config service create = (refl, refl, refl)
write_target-get_config service update = (refl, refl, refl)
write_target-get_config service_policy create = (refl, refl, refl)
write_target-get_config service_policy update = (refl, refl, refl)
write_target-get_config gateway_template create = (refl, refl, refl)
write_target-get_config gateway_template update = (refl, refl, refl)
write_target-get_config device_profile create = (refl, refl, refl)
write_target-get_config device_profile update = (refl, refl, refl)

abbrev write_choices : List (WanObject × WriteVerb)
write_choices =
    (network, create)
    ∷ (network, update)
    ∷ (service, create)
    ∷ (service, update)
    ∷ (service_policy, create)
    ∷ (service_policy, update)
    ∷ (gateway_template, create)
    ∷ (gateway_template, update)
    ∷ (device_profile, create)
    ∷ (device_profile, update)
    ∷ []

abbrev written : WanObject × WriteVerb → String
written (object, verb) = (write_target object verb).write_operation_id

find-write_target :
    (object : WanObject) (verb : WriteVerb)
    → find_choice written (written (object, verb)) write_choices ≡ some (object, verb)
unfolding find_choice write_target
find-write_target network create = refl
find-write_target network update = refl
find-write_target service create = refl
find-write_target service update = refl
find-write_target service_policy create = refl
find-write_target service_policy update = refl
find-write_target gateway_template create = refl
find-write_target gateway_template update = refl
find-write_target device_profile create = refl
find-write_target device_profile update = refl

-- No two writes share an operation: the operation determines the object type and the verb.
pub write_target-inj :
    (a b : WanObject × WriteVerb)
    → (write_target a.0 a.1).write_operation_id ≡ (write_target b.0 b.1).write_operation_id
    → a ≡ b
write_target-inj (o, v) (o', v') e = some-inj _ _ (
    sym (find-write_target o v)
    ∙ ap (λ w. find_choice written w write_choices) e
    ∙ find-write_target o' v')
