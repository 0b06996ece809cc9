-- ===== src/Tests/ConfigTests.antt =====
-- A configuration of an account for a provider that the catalog has.
use modelcairn.Base.{String, true, false, none, some, [], ◌∷◌, ◌≡◌, ◌≤◌, length, refl}
use modelcairn.Config.{Metadata, Document, Std, provider, provider_account}
use modelcairn.Base.Text.{codes}
use modelcairn.Config.Patterns.{is_name, is_uuid, itoa}
use modelcairn.Config.Specs.{valid_ref, validate_spec}
use modelcairn.Config.References.{lookup, require, validate_references}
use modelcairn.Config.Validate.{
  Catalog, known_kind, apply_index, validate_resources, validate_document, validate_existing,
  graph_of, validate_graph, validate,
}
use modelcairn.Config.Distinct.{AllDistinct, validate-AllDistinct}
use modelcairn.Config.Closed.{AllDesired, AllExisting, validate-AllLinked}

abbrev std : Std
std = record { to_lower = λ s. s; parse_url = λ s. none; parse_ip = λ s. none; is_time = λ s. true }

abbrev pub named : String → Metadata
named name = record {
  name = name;
  display_name = none;
  description = none;
  uid = none;
  resource_version = none;
}

abbrev doc : Document
doc = record {
  api_version = "modelcairn.io/v1alpha1";
  kind = "Configuration";
  resources =
      record {
        kind = "ProviderAccount";
        state = "present";
        metadata = named "main";
        spec = provider_account (record { name = "acme" });
      }
      ∷ [];
}

abbrev catalog : Catalog
catalog = record {
  resources =
      record { kind = "Provider"; state = "present"; metadata = named "acme"; spec = provider }
      ∷ [];
  secret_exists = λ s. false;
}

doc_passes : validate std doc (some catalog) ≡ none
unfolding valid_ref validate_spec lookup require validate_references known_kind apply_index
    validate_resources validate_document validate_existing graph_of validate_graph validate
doc_passes = refl

validate-AllLinked_example :
    (length ((graph_of std doc (some catalog)).effective) ≤ 10000)
    × AllDesired (graph_of std doc (some catalog)) doc.resources
    × AllExisting (graph_of std doc (some catalog)) catalog.resources
validate-AllLinked_example = validate-AllLinked std doc catalog doc_passes

pathed : itoa 10307 ≡ "10307"
unfolding itoa
pathed = refl

uuid_read : is_uuid "123e4567-e89b-12d3-a456-426614174000" ≡ true
unfolding codes is_uuid
uuid_read = refl

name_refused : is_name "Acme" ≡ false
unfolding codes is_name
name_refused = refl

validate-AllDistinct_example : AllDistinct [] doc.resources
validate-AllDistinct_example = validate-AllDistinct std doc (some catalog) doc_passes
