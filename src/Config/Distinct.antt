-- ===== src/Config/Distinct.antt =====
-- The resources of a document that validation passes.
use modelcairn.Base.{
  ℕ, suc, str_eq, true, false, not, ◌&&◌, Option, none, some, List, [], ◌∷◌, is_some, ltb, length,
  ◌orelse◌, reject, first, orelse-none, reject-none, first-none, not-false, ◌≡◌, refl, arith,
}
use modelcairn.Config.{Resource, Document, invalid, bad_value, Std}
use modelcairn.Config.Patterns.{is_name}
use modelcairn.Config.References.{lookup}
use modelcairn.Config.Validate.{
  Catalog, known_kind, is_present, is_absent, resource_path, metadata_checks, present_spec,
  validate_resources, graph_of, validate_graph, validate,
}

-- Each resource has a known kind and a proper name, and none before it has both of these.
abbrev pub AllDistinct : List Resource → List Resource → Type 0
AllDistinct index [] = Unit
AllDistinct index (r ∷ rs) =
    (known_kind r.kind ≡ true)
    × (is_name r.metadata.name ≡ true)
    × (lookup r.kind r.metadata.name index ≡ none)
    × AllDistinct (r ∷ index) rs

not_some : {A : Type 0} (o : Option A) → is_some o ≡ false → o ≡ none
not_some none h = refl
not_some (some a) h = ground arith

module _ (S : Std) where
  resources-AllDistinct :
      (i : ℕ) (index rs : List Resource)
      → validate_resources S i index rs ≡ none
      → AllDistinct index rs
  unfolding validate_resources
  resources-AllDistinct i index [] h = tt
  resources-AllDistinct i index (r ∷ rs) h =
      let p = resource_path S i in
      let kinds =
        (not (known_kind r.kind), bad_value p ".kind")
        ∷ (not (is_present r) && not (is_absent r), bad_value p ".state")
        ∷ [] in
      let fresh =
        reject (is_some (lookup r.kind r.metadata.name index)) (invalid "duplicate_resource" p) in
      let spec = present_spec S (is_present r) r p in
      let rest = validate_resources S (suc i) (r ∷ index) rs in
      let a =
        orelse-none (first kinds)
          (first (metadata_checks S r.metadata p) orelse (fresh orelse (spec orelse rest))) h in
      let b =
        orelse-none (first (metadata_checks S r.metadata p)) (fresh orelse (spec orelse rest))
          a.1 in
      let c = orelse-none fresh (spec orelse rest) b.1 in
      let d = orelse-none spec rest c.1 in
      (
        not-false (known_kind r.kind) (first-none kinds a.0).0,
        not-false (is_name r.metadata.name) (first-none (metadata_checks S r.metadata p) b.0).0,
        not_some (lookup r.kind r.metadata.name index) (
            reject-none (is_some (lookup r.kind r.metadata.name index))
              (invalid "duplicate_resource" p) c.0),
        resources-AllDistinct (suc i) (r ∷ index) rs d.1,
      )

  -- A document that passes validation, with or without a catalog, has resources of known kinds with
  -- proper names, no two of the same kind and name.
  pub validate-AllDistinct :
      (doc : Document) (catalog : Option Catalog)
      → validate S doc catalog ≡ none
      → AllDistinct [] doc.resources
  unfolding validate
  validate-AllDistinct doc catalog h =
      let header = first (
        (
          not (str_eq doc.api_version "modelcairn.io/v1alpha1"),
          invalid "invalid_value" "$.apiVersion",
        )
        ∷ (not (str_eq doc.kind "Configuration"), invalid "invalid_value" "$.kind")
        ∷ (ltb 10000 (length doc.resources), invalid "invalid_value" "$.resources")
        ∷ []) in
      let resources = validate_resources S 0 [] doc.resources in
      let graph = validate_graph S doc catalog (graph_of S doc catalog) in
      resources-AllDistinct 0 [] doc.resources
        (orelse-none resources graph (orelse-none header (resources orelse graph) h).1).0
