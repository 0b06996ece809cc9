-- ===== src/Tests/MutationTests.antt =====
-- An update of one resource that the caller has seen, and of one that has changed since.
use modelcairn.Base.{some, pos, ◌≡◌, refl}
use modelcairn.Config.{Resource, provider}
use modelcairn.Config.Mutation.{
  Found, found, MutationInput, refused, target, operation_error, resource_error, given_target,
  operation_target, mutation_target,
}
use modelcairn.Config.Mutation.Versions.{IsOperation, stored_of, mutation_target-versions}
use modelcairn.Tests.ConfigTests.{named}

abbrev renamed : Resource
renamed = record { kind = "Provider"; state = "present"; metadata = named "acme"; spec = provider }

abbrev input : MutationInput
input = record {
  operation = "update";
  kind = "Provider";
  name = "acme";
  resource = some renamed;
  expected_version = pos 4;
}

abbrev stored : Found
stored = found (record { id = "123e4567-e89b-12d3-a456-426614174000"; resource_version = pos 4 })

update_let_through : mutation_target input stored ≡ target renamed
unfolding operation_error resource_error given_target operation_target mutation_target
update_let_through = refl

stale_refused :
    mutation_target (record input { expected_version = pos 3 }) stored ≡ refused "version_conflict"
unfolding operation_error resource_error given_target operation_target mutation_target
stale_refused = refl

mutation_target-versions_example :
    (renamed.kind ≡ "Provider")
    × (renamed.metadata.name ≡ "acme")
    × IsOperation input (stored_of stored) renamed
mutation_target-versions_example = mutation_target-versions input stored renamed update_let_through
