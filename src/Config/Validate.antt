-- ===== src/Config/Validate.antt =====
-- `Validate` of internal/config/validate.go, and `knownKind` of decode.go.
use modelcairn.Base.{
  ℕ, suc, String, append, str_eq, Bool, true, false, not, ◌&&◌, ◌||◌, Option, none, some, List, [],
  ◌∷◌, pos, leb_ℤ, ltb, length, filter, is_some, ◌orelse◌, reject, first, if◌then◌else◌,
}
use modelcairn.Config.{Kind, Metadata, Resource, Document, Fault, invalid, Std, bad_value}
use Prim.Native.String.{count}
use modelcairn.Config.Patterns.{is_name, is_uuid, itoa}
use modelcairn.Config.Specs.{member, validate_spec}
use modelcairn.Config.References.{same_key, lookup, Graph, validate_references}

pub record Catalog : Type 0 where
  pub resources : List Resource
  pub secret_exists : String → Bool

unfoldable pub known_kind : Kind → Bool
known_kind kind = member kind (
    "Provider" ∷ "ProviderAccount" ∷ "ProviderConnection" ∷ "Credential" ∷ "Egress" ∷ "Model"
    ∷ "Destination" ∷ "Strategy" ∷ "Route" ∷ "AgentToken" ∷ [])

abbrev pub is_present : Resource → Bool
is_present r = str_eq r.state "present"

abbrev pub is_absent : Resource → Bool
is_absent r = str_eq r.state "absent"

-- Without the entry under the key of `r`.
abbrev pub delete : Resource → List Resource → List Resource
delete r = filter (λ (x : Resource). not (same_key r.kind r.metadata.name x))

-- `effective[key] = r`
abbrev pub put : Resource → List Resource → List Resource
put r rs = r ∷ delete r rs

abbrev pub put_all : List Resource → List Resource → List Resource
put_all [] rs = rs
put_all (r ∷ more) rs = put_all more (put r rs)

-- The loop over `index`, whose keys are different.
unfoldable pub apply_index : List Resource → List Resource → List Resource
apply_index [] rs = rs
apply_index (r ∷ index) rs = apply_index index (if is_absent r then delete r rs else put r rs)

module _ (S : Std) where
  abbrev pub resource_path : ℕ → String
  resource_path i = append "$.resources[" (append (itoa i) "]")

  abbrev pub bad_option : {A : Type 0} → (A → Bool) → Option A → Bool
  bad_option bad none = false
  bad_option bad (some x) = bad x

  abbrev pub metadata_checks : Metadata → String → List (Bool × Fault)
  metadata_checks m p =
      (not (is_name m.name), bad_value p ".metadata.name")
      ∷ (
        bad_option (λ s. ltb (count s) 1 || ltb 120 (count s)) m.display_name,
        bad_value p ".metadata.displayName",
      )
      ∷ (bad_option (λ s. ltb 2000 (count s)) m.description, bad_value p ".metadata.description")
      ∷ (bad_option (λ s. not (is_uuid s)) m.uid, bad_value p ".metadata.uid")
      ∷ (
        bad_option (λ n. not (leb_ℤ (pos 1) n)) m.resource_version,
        bad_value p ".metadata.resourceVersion",
      )
      ∷ []

  abbrev pub present_spec : Bool → Resource → String → Option Fault
  present_spec true r p = validate_spec S r.spec (append p ".spec")
  present_spec false r p = none

  -- The first loop: what is wrong with a resource of the document, after those of `index`.
  unfoldable pub validate_resources : ℕ → List Resource → List Resource → Option Fault
  unfolding known_kind lookup validate_spec
  validate_resources i index [] = none
  validate_resources i index (r ∷ rs) =
      let p = resource_path i in
      first (
        (not (known_kind r.kind), bad_value p ".kind")
        ∷ (not (is_present r) && not (is_absent r), bad_value p ".state")
        ∷ [])
      orelse (first (metadata_checks r.metadata p) orelse (
          reject (is_some (lookup r.kind r.metadata.name index)) (invalid "duplicate_resource" p)
          orelse (present_spec (is_present r) r p
              orelse validate_resources (suc i) (r ∷ index) rs)))

  abbrev pub absent_or : Bool → Option Fault → Option Fault
  absent_or true check = none
  absent_or false check = check

  -- The second loop, over the document.
  unfoldable pub validate_document : Graph → ℕ → List Resource → Option Fault
  unfolding validate_references
  validate_document g i [] = none
  validate_document g i (r ∷ rs) =
      absent_or (is_absent r) (validate_references S g r.spec (append (resource_path i) ".spec"))
      orelse validate_document g (suc i) rs

  -- The third loop, over the catalog.
  unfoldable pub validate_existing : Graph → List Resource → Option Fault
  unfolding validate_references lookup
  validate_existing g [] = none
  validate_existing g (r ∷ rs) =
      let path =
        append "$.existing[" (append r.kind (append "/" (append r.metadata.name "].spec"))) in
      absent_or (is_some (lookup r.kind r.metadata.name g.index))
        (validate_references S (record g { strict = true }) r.spec path)
      orelse validate_existing g rs

  abbrev pub known_resources : Option Catalog → List Resource
  known_resources none = []
  known_resources (some catalog) = catalog.resources

  abbrev pub known_secret : Option Catalog → String → Bool
  known_secret none name = false
  known_secret (some catalog) name = catalog.secret_exists name

  unfoldable pub graph_of : Document → Option Catalog → Graph
  unfolding apply_index
  graph_of doc catalog = record {
    effective = apply_index doc.resources (put_all (known_resources catalog) []);
    secret_exists = known_secret catalog;
    strict = is_some catalog;
    index = doc.resources;
  }

  unfoldable pub validate_graph : Document → Option Catalog → Graph → Option Fault
  unfolding validate_document validate_existing
  validate_graph doc catalog g =
      reject (ltb 10000 (length g.effective)) (invalid "invalid_value" "$.resources") orelse (
        validate_document g 0 doc.resources orelse validate_existing g (known_resources catalog))

  unfoldable pub validate : Document → Option Catalog → Option Fault
  unfolding validate_resources graph_of validate_graph
  validate doc catalog =
      first (
        (
          not (str_eq doc.api_version "modelcairn.io/v1alpha1"),
          invalid "invalid_value" "$.apiVersion",
        )
        ∷ (not (str_eq doc.kind "Configuration"), invalid "invalid_value" "$.kind")
        ∷ (ltb 10000 (length doc.resources), invalid "invalid_value" "$.resources")
        ∷ [])
      orelse (validate_resources 0 [] doc.resources
          orelse validate_graph doc catalog (graph_of doc catalog))
