-- ===== src/Config/Closed.antt =====
-- The graph of a configuration that validation passes, against a catalog.
use mathlib.Core.Path.{subst}
use modelcairn.Base.{
  ◌≤◌, ap, sym, not_ltb→le, ℕ, suc, String, append, str_eq, Bool, true, false, not, none, some,
  List, [], ◌∷◌, is_some, ltb, length, ◌orelse◌, reject, first, orelse-none, reject-none, ◌≡◌, refl,
}
use modelcairn.Config.{Resource, Document, invalid, Std}
use modelcairn.Config.Validate.{
  Catalog, is_absent, resource_path, absent_or, validate_resources, validate_document,
  validate_existing, graph_of, validate_graph, validate,
}
use modelcairn.Config.References.{lookup, Graph, validate_references}
use modelcairn.Config.Links.{IsLinked, references-IsLinked}

-- A resource is linked unless it is left out.
abbrev pub LinkedOr : Bool → Graph → Resource → Type 0
LinkedOr true g r = Unit
LinkedOr false g r = IsLinked g r.spec

-- The resources of the document that are not absent, and those of the catalog that the document says nothing
-- of, are linked.
abbrev pub AllDesired : Graph → List Resource → Type 0
AllDesired g [] = Unit
AllDesired g (r ∷ rs) = LinkedOr (is_absent r) g r × AllDesired g rs

abbrev pub AllExisting : Graph → List Resource → Type 0
AllExisting g [] = Unit
AllExisting g (r ∷ rs) =
    LinkedOr (is_some (lookup r.kind r.metadata.name g.index)) g r × AllExisting g rs

module _ (S : Std) where
  absent_or-LinkedOr :
      (b : Bool) (g : Graph) (r : Resource) (path : String)
      → g.strict ≡ true
      → absent_or S b (validate_references S g r.spec path) ≡ none
      → LinkedOr b g r
  absent_or-LinkedOr true g r path s h = tt
  absent_or-LinkedOr false g r path s h = references-IsLinked S g r.spec path s h

  document-AllDesired :
      (g : Graph) (i : ℕ) (rs : List Resource)
      → g.strict ≡ true
      → validate_document S g i rs ≡ none
      → AllDesired g rs
  unfolding validate_document
  document-AllDesired g i [] s h = tt
  document-AllDesired g i (r ∷ rs) s h =
      let path = append (resource_path S i) ".spec" in
      let both =
        orelse-none (absent_or S (is_absent r) (validate_references S g r.spec path))
          (validate_document S g (suc i) rs) h in
      (
        absent_or-LinkedOr (is_absent r) g r path s both.0,
        document-AllDesired g (suc i) rs s both.1,
      )

  existing-AllExisting :
      (g : Graph) (rs : List Resource)
      → g.strict ≡ true
      → validate_existing S g rs ≡ none
      → AllExisting g rs
  unfolding validate_existing
  existing-AllExisting g [] s h = tt
  existing-AllExisting g (r ∷ rs) s h =
      let path =
        append "$.existing[" (append r.kind (append "/" (append r.metadata.name "].spec"))) in
      let known = is_some (lookup r.kind r.metadata.name g.index) in
      let check =
        absent_or S known (validate_references S (record g { strict = true }) r.spec path) in
      let both = orelse-none check (validate_existing S g rs) h in
      let strict : record g { strict = true } ≡ g =
        ap (λ (b : Bool). record g { strict = b }) (sym s) in
      (
        subst (λ (x : Graph). LinkedOr known x r) strict
            (absent_or-LinkedOr known (record g { strict = true }) r path refl both.0),
        existing-AllExisting g rs s both.1,
      )

  graph_of-strict :
      (doc : Document) (catalog : Catalog) → (graph_of S doc (some catalog)).strict ≡ true
  unfolding graph_of
  graph_of-strict doc catalog = refl

  -- A document that passes validation against a catalog leaves a closed graph of at most 10000 resources:
  -- every resource that the document declares present, and every one of the catalog that it does not name,
  -- refers only to resources of the graph and to secrets that exist, and a destination refers to a model and a
  -- credential that are of the same provider, where both providers are known.
  pub validate-AllLinked :
      (doc : Document) (catalog : Catalog)
      → validate S doc (some catalog) ≡ none
      → let g = graph_of S doc (some catalog) in
        (length g.effective ≤ 10000) × AllDesired g doc.resources × AllExisting g catalog.resources
  unfolding validate validate_graph
  validate-AllLinked doc catalog h =
      let g = graph_of S doc (some catalog) in
      let header = first (
        (
          not (str_eq doc.api_version "modelcairn.io/v1alpha1"),
          invalid "invalid_value" "$.apiVersion",
        )
        ∷ (not (str_eq doc.kind "Configuration"), invalid "invalid_value" "$.kind")
        ∷ (ltb 10000 (length doc.resources), invalid "invalid_value" "$.resources")
        ∷ []) in
      let few = reject (ltb 10000 (length g.effective)) (invalid "invalid_value" "$.resources") in
      let document = validate_document S g 0 doc.resources in
      let existing = validate_existing S g catalog.resources in
      let graph = few orelse (document orelse existing) in
      let a = orelse-none header (validate_resources S 0 [] doc.resources orelse graph) h in
      let b = orelse-none (validate_resources S 0 [] doc.resources) graph a.1 in
      let c = orelse-none few (document orelse existing) b.1 in
      let d = orelse-none document existing c.1 in
      (
        not_ltb→le 10000 (length g.effective) (
            reject-none (ltb 10000 (length g.effective)) (invalid "invalid_value" "$.resources")
              c.0),
        document-AllDesired g 0 doc.resources (graph_of-strict doc catalog) d.0,
        existing-AllExisting g catalog.resources (graph_of-strict doc catalog) d.1,
      )
