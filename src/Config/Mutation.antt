-- ===== src/Config/Mutation.antt =====
-- internal/config/resource_mutation.go: what `MutateResourceSession` decides before it prepares the change of one
-- resource.
use modelcairn.Base.{
  ℕ, String, str_eq, Bool, true, false, not, ◌&&◌, ◌||◌, Option, none, some, ℤ, pos, negsuc, leb_ℤ,
  eq_ℤ, is_some, ◌orelse◌, reject, if◌then◌else◌,
}
use modelcairn.Config.{Kind, Metadata, Spec, nothing, Resource}
pub mod Versions

-- The fields that the decision reads of a stored resource.
pub record Stored : Type 0 where
  pub id : String
  pub resource_version : ℤ

-- What `GetResourceTx` answers.
pub data Found : Type 0 where
  found : Stored → Found
  not_found : Found
  failing : String → Found

pub record MutationInput : Type 0 where
  pub operation : String
  pub kind : Kind
  pub name : String
  pub resource : Option Resource
  pub expected_version : ℤ

-- The code of an error, or the resource that the document to prepare holds.
pub data Target : Type 0 where
  refused : String → Target
  target : Resource → Target

-- No version is expected, or another one.
abbrev pub version_differs : ℤ → Option Stored → Bool
version_differs expected none = true
version_differs expected (some s) =
    not (leb_ℤ (pos 1) expected) || not (eq_ℤ s.resource_version expected)

-- `switch input.Operation`
unfoldable pub operation_error : MutationInput → Option Stored → Option String
operation_error input current =
    if str_eq input.operation "create"
    then reject (is_some current) "already_exists"
      orelse reject (not (eq_ℤ input.expected_version (pos 0)) || not (is_some input.resource))
          "invalid_resource"
    else if str_eq input.operation "update" || str_eq input.operation "delete"
    then reject (not (is_some current)) "not_found" orelse (
        reject (version_differs input.expected_version current) "version_conflict"
        orelse reject (str_eq input.operation "update" && not (is_some input.resource))
            "invalid_resource")
    else some "invalid_resource"

abbrev pub absent_resource : MutationInput → Resource
absent_resource input = record {
  kind = input.kind;
  state = "absent";
  metadata = record {
    name = input.name;
    display_name = none;
    description = none;
    uid = none;
    resource_version = none;
  };
  spec = nothing;
}

abbrev pub uid_differs : Option String → String → Bool
uid_differs none id = false
uid_differs (some uid) id = not (str_eq uid id)

abbrev pub pin_differs : Option ℤ → ℤ → Bool
pin_differs none version = false
pin_differs (some n) version = not (eq_ℤ n version)

-- The resource pins an identifier or a version that is not the stored one.
abbrev pub metadata_differs : Metadata → Option Stored → Bool
metadata_differs m none = false
metadata_differs m (some s) =
    uid_differs m.uid s.id || pin_differs m.resource_version s.resource_version

unfoldable pub resource_error : MutationInput → Option Stored → Resource → Option String
resource_error input current r =
    reject
      (not (str_eq r.state "present")
        || not (str_eq r.kind input.kind)
        || not (str_eq r.metadata.name input.name))
      "invalid_resource"
    orelse reject (str_eq input.operation "update" && metadata_differs r.metadata current)
        "version_conflict"

abbrev pub refuse_or : Option String → Resource → Target
refuse_or none r = target r
refuse_or (some code) r = refused code

-- `*input.Resource` is there, as the operation has been checked.
unfoldable pub given_target : MutationInput → Option Stored → Option Resource → Target
unfolding resource_error
given_target input current none = refused "invalid_resource"
given_target input current (some r) = refuse_or (resource_error input current r) r

unfoldable pub operation_target : Option String → MutationInput → Option Stored → Target
unfolding given_target
operation_target (some code) input current = refused code
operation_target none input current =
    if str_eq input.operation "delete"
    then target (absent_resource input)
    else given_target input current input.resource

unfoldable pub mutation_target : MutationInput → Found → Target
unfolding operation_target operation_error
mutation_target input (found s) = operation_target (operation_error input (some s)) input (some s)
mutation_target input not_found = operation_target (operation_error input none) input none
mutation_target input (failing code) = refused code
