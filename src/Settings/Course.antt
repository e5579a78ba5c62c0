-- ===== src/Settings/Course.antt =====
-- The map of VMs after any course of requests to `PerformConfigFunction` of src/CollabVM.cpp.
use collab_vm_server.Prelude.{
  ℕ, ◌≡◌, Bool, true, ◌&&◌, Option, none, some, List, [], ◌∷◌, ◌++◌, Bytes, codes,
}
use collab_vm_server.Processing.{ControllerState}
use collab_vm_server.Settings.{Token, start_object, end_object, string, find_setting}
use collab_vm_server.Settings.Store.{
  Argument, Document, empty, not_object, root, Store, Call, Answer, function_key, config_functions,
}
use collab_vm_server.Settings.Perform.{
  perform, perform_all, perform_document, perform_config_function,
}
use collab_vm_server.Settings.Keyed.{IsKeyed}
use collab_vm_server.Settings.Named.{and-left, and-right}
use collab_vm_server.Settings.Changes.{Keeps, agrees, perform-Keeps}

-- Whether in each object of the request that changes the settings of a VM, the members that are
-- called `name` are all the same text.
abbrev pub all_agree : List (Bytes × Argument) → Bool
all_agree [] = true
all_agree ((key, a) ∷ ms) =
    agrees (find_setting function_key key config_functions) a && all_agree ms

abbrev pub document_agrees : Document → Bool
document_agrees (root ms) = all_agree ms
document_agrees _ = true

module _ (split : Bytes → List Bytes) (agent_port : ℕ)
    (state : List Call → Bytes → Option ControllerState) where
  all-Keeps :
      (ms : List (Bytes × Argument)) (r : Answer)
      → all_agree ms ≡ true
      → IsKeyed r.0.virtual_machines
      → Keeps (perform_all split agent_port state ms r)
  unfolding perform_all
  all-Keeps [] (s, out, calls) h i = i
  all-Keeps ((key, a) ∷ ms) (s, out, calls) h i =
      let later =
        and-right (agrees (find_setting function_key key config_functions) a) (all_agree ms) h in
      elim (find_setting function_key key config_functions)
          as (λ o.
            agrees o a ≡ true
            → Keeps (elim o [
              | none ↦ perform_all split agent_port state ms (s, out, calls)
              | some f ↦ elim (perform split agent_port (λ more. state (calls ++ more)) f a s) [
                | none ↦ none
                | some (s', out', more) ↦
                    perform_all split agent_port state ms (s', out ++ out', calls ++ more)
              ]
            ])) [
              | none ↦ λ k. all-Keeps ms (s, out, calls) later i
              | some f ↦ λ k.
                  elim (perform split agent_port (λ more. state (calls ++ more)) f a s)
                      as (λ r.
                        Keeps r
                        → Keeps (elim r [
                          | none ↦ none
                          | some (s', out', more) ↦
                              perform_all split agent_port state ms (s', out ++ out', calls ++ more)
                        ])) [
                          | none ↦ λ j. tt
                          | some (s', out', more) ↦
                              λ j. all-Keeps ms (s', out ++ out', calls ++ more) later j
                        ]
                    (perform-Keeps split agent_port (λ more. state (calls ++ more)) f a s k i)
            ]
        (and-left (agrees (find_setting function_key key config_functions) a) (all_agree ms) h)

  ended-Keeps :
      (r : Option Answer) (f : List Token → List Token)
      → Keeps r
      → Keeps (elim r [ none ↦ none | some (s, out, calls) ↦ some (s, f out, calls) ])
  ended-Keeps none f h = tt
  ended-Keeps (some (s, out, calls)) f h = h

  document-Keeps :
      (d : Document) (s : Store)
      → document_agrees d ≡ true
      → IsKeyed s.virtual_machines
      → Keeps (perform_document split agent_port state d s)
  unfolding perform_document
  document-Keeps empty s h i = i
  document-Keeps not_object s h i = i
  document-Keeps (root ms) s h i =
      ended-Keeps (perform_all split agent_port state ms (s, [], []))
        (λ out. out ++ end_object ∷ []) (all-Keeps ms (s, [], []) h i)

  perform_config_function-Keeps :
      (d : Document) (s : Store)
      → document_agrees d ≡ true
      → IsKeyed s.virtual_machines
      → Keeps (perform_config_function split agent_port state d s)
  unfolding perform_config_function
  perform_config_function-Keeps d s h i =
      ended-Keeps (perform_document split agent_port state d s)
        (λ out. start_object ∷ string (codes "result") ∷ out) (document-Keeps d s h i)

-- A request: what a new object for the settings of a VM holds as its port, the states of the
-- controllers after calls, and the document.
pub record Request : Type 0 where
  pub agent_port : ℕ
  pub state : List Call → Bytes → Option ControllerState
  pub document : Document

module _ (split : Bytes → List Bytes) where
  -- The stores after each of the requests, until one has no result.
  unfoldable pub stores : List Request → Store → List Store
  unfolding perform_config_function
  stores [] s = s ∷ []
  stores (r ∷ rs) s = elim (perform_config_function split r.agent_port r.state r.document s) [
    | none ↦ s ∷ []
    | some (s', out, calls) ↦ s ∷ stores rs s'
  ]

abbrev pub requests_agree : List Request → Bool
requests_agree [] = true
requests_agree (r ∷ rs) = document_agrees r.document && requests_agree rs

abbrev pub AllKeyed : List Store → Type 0
AllKeyed [] = Unit
AllKeyed (s ∷ ss) = IsKeyed s.virtual_machines × AllKeyed ss

-- From a map in which each VM stands under its own name and the names ascend, it is so after each
-- request of any course of them, up to one whose behaviour is undefined, if in each object that
-- changes the settings of a VM the members called `name` are all the same text: also where several
-- functions stand in one request, and where settings are refused.
pub stores-AllKeyed :
    (split : Bytes → List Bytes) (rs : List Request) (s : Store)
    → requests_agree rs ≡ true
    → IsKeyed s.virtual_machines
    → AllKeyed (stores split rs s)
unfolding stores
stores-AllKeyed split [] s h i = (i, tt)
stores-AllKeyed split (r ∷ rs) s h i =
    elim (perform_config_function split r.agent_port r.state r.document s)
        as (λ a.
          Keeps a
          → AllKeyed (elim a [ none ↦ s ∷ [] | some (s', out, calls) ↦ s ∷ stores split rs s' ])) [
            | none ↦ λ k. (i, tt)
            | some (s', out, calls) ↦ λ k. (
              i,
              stores-AllKeyed split rs s'
                  (and-right (document_agrees r.document) (requests_agree rs) h) k,
            )
          ]
      (perform_config_function-Keeps split r.agent_port r.state r.document s
        (and-left (document_agrees r.document) (requests_agree rs) h) i)
