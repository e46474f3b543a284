-- ===== src/Resources/Execute/Actions.antt =====
-- One action on one resource: which method of the client it calls, and what it makes of the result.
use mathlib.Core.Logic.{if_pos}
use operations_calico_contai.Base.{◌≡◌, refl, Bool, false, Option, none, some, if◌then◌else◌}
use operations_calico_contai.Base.Result
use operations_calico_contai.Base.Result.{
  Error, Result, ok, err, already_exists, does_not_exist, other,
}
use operations_calico_contai.Base.Outcome.{returned}
use operations_calico_contai.Base.Proc.{World}
use operations_calico_contai.Args.{Args}
use operations_calico_contai.Args.Laws.{IsFlag, is_set, arg_bool_or_false-eq}
use operations_calico_contai.Platform.{
  Platform, ResourceKind, element, HasConstructors, element_metadata,
}
use operations_calico_contai.Manager.{
  StructType-discrete, Resource, struct, pointer, assert_struct, run_command, apply_as, create_as,
  update_as, delete_as, list_as,
}
use operations_calico_contai.Manager.Laws.{element_helper, get_resource_manager-element}
use operations_calico_contai.Resources.Execute.{
  Action, action_apply, action_create, action_update, action_delete, action_list, command_of, skips,
  settle, execute_resource_action,
}

-- An error of this class counts as a success under this flag.
abbrev pub skippable : Args → Error → Bool
skippable args (already_exists _) = is_set args "--skip-exists"
skippable args (does_not_exist _) = is_set args "--skip-not-exists"
skippable args (other _) = false

module _ (p : Platform) where
  -- The client's method for the action, and its result as a resource that the command returns.
  abbrev pub client_call :
      Action
      → p.Client
      → ResourceKind
      → p.Object
      → p.Store
      → Result (Option (Resource p.Object)) × p.Store
  client_call action_apply c k o s =
      let (r, s') = p.apply c k o s in (Result.map (λ x. some (pointer x)) r, s')
  client_call action_create c k o s =
      let (r, s') = p.create c k o s in (Result.map (λ x. some (pointer x)) r, s')
  client_call action_update c k o s =
      let (r, s') = p.update c k o s in (Result.map (λ x. some (pointer x)) r, s')
  client_call action_delete c k o s =
      let (r, s') = p.delete c k (p.metadata o) s in
      (elim r [ none ↦ ok none | some e ↦ err e ], s')
  client_call action_list c k o s =
      let (r, s') = p.list c k (p.metadata o) s in (Result.map (λ x. some (pointer x)) r, s')

  assert_struct-element :
      (k : ResourceKind) (o : p.Object)
      → p.struct_type o ≡ element k
      → assert_struct p k (struct o) ≡ returned o
  unfolding assert_struct
  assert_struct-element k o e = if_pos (StructType-discrete (p.struct_type o) (element k)) e _ _

  run_element :
      (action : Action) (client : p.Client) (k : ResourceKind) (o : p.Object) (w : World p.Store)
      → p.struct_type o ≡ element k
      → run_command p (command_of p action (element_helper p k)) client (struct o) w ≡ (
        returned (client_call action client k o w.system).0,
        record w { system = (client_call action client k o w.system).1 },
      )
  unfolding run_command command_of apply_as create_as update_as delete_as list_as
  run_element action_apply client k o w e = rw (assert_struct-element k o e, run_command, apply_as)
  run_element action_create client k o w e =
      rw (assert_struct-element k o e, run_command, create_as)
  run_element action_update client k o w e =
      rw (assert_struct-element k o e, run_command, update_as)
  run_element action_delete client k o w e =
      rw (assert_struct-element k o e, run_command, delete_as)
  run_element action_list client k o w e = rw (assert_struct-element k o e, run_command, list_as)

  -- Where the API's constructors give a struct its type, an action on a struct with the type
  -- and the type metadata of a kind calls the client's method for that action and kind, once,
  -- changes what that call changes, prints nothing, and settles what the client returned.
  pub execute_resource_action-element :
      HasConstructors p
      → (args : Args) (client : p.Client) (action : Action) (k : ResourceKind) (o : p.Object)
      → (w : World p.Store) → p.type_metadata o ≡ element_metadata k
      → p.struct_type o ≡ element k
      → let (r, s) = client_call action client k o w.system in
        execute_resource_action p args client action (struct o) w
        ≡ (settle p args (struct o) r, record w { system = s })
  unfolding execute_resource_action
  execute_resource_action-element c args client action k o w m t =
      rw (get_resource_manager-element p c k (struct o) m, run_element action client k o w t)

  -- Where the two skip options are flags or absent, an error of an action counts as a success,
  -- with the resource as the result, exactly if it is that the resource exists and
  -- --skip-exists is given, or that it does not exist and --skip-not-exists is given;
  -- otherwise it is returned.
  pub settle-err :
      (args : Args) (r : Resource p.Object) (e : Error)
      → IsFlag args "--skip-exists"
      → IsFlag args "--skip-not-exists"
      → settle p args r (err e) ≡ returned (if skippable args e then ok (some r) else err e)
  unfolding settle skips
  settle-err args r (already_exists x) f g = rw (arg_bool_or_false-eq args "--skip-exists" f, skips)
  settle-err args r (does_not_exist x) f g =
      rw (arg_bool_or_false-eq args "--skip-not-exists" g, skips)
  settle-err args r (other x) f g = refl
