-- ===== src/Tests/CapableTests.antt =====
-- The request with a tool, a route with one destination that can serve it, and a run whose first attempt is refused.
use modelcairn.Base.{take, filter, String, false, some, List, [], ◌∷◌, ◌≡◌, refl, length}
use modelcairn.Base.Sort.{sort}
use modelcairn.Base.Text.{codes, str_lt}
use modelcairn.Config.Patterns.{is_alias}
use modelcairn.Chat.{Request}
use modelcairn.Chat.Messages.{
  accepted, is_function_name, valid_text_content, valid_json_object, valid_tool_choice,
  validate_message,
}
use modelcairn.Chat.Validate.{validate_messages, validate_tools, validate_request}
use modelcairn.Chat.Needs.{request_needs}
use modelcairn.Router.{Attempt, Snapshot, eligible}
use modelcairn.Router.Classify.{classify_attempt}
use modelcairn.Router.Engine.{run, run_loop, run_turn}
use modelcairn.Router.Load.{
  Reads, loaded, available_capabilities, missing, exclusions, destination_of, load_destination,
  load_destinations,
}
use modelcairn.Router.LoadRoute.{snapshot_of, load}
use modelcairn.Router.Capable.{CanServe, AreSentTo, run-CanServe}
use modelcairn.Tests.ChatTests.{plain, request}
use modelcairn.Tests.LoadTests.{route, strategy, near, far, reads}
use modelcairn.Tests.RouterTests.{engine, falls_back}

abbrev whole : Request
whole = record request { stream = false }

abbrev capabilities : List String
capabilities = "developer-role" ∷ "text" ∷ "tools" ∷ []

whole_accepted : validate_request plain whole ≡ accepted capabilities
unfolding validate_request validate_messages validate_tools validate_message is_function_name
    valid_text_content valid_json_object valid_tool_choice is_alias codes str_lt sort
whole_accepted = refl

abbrev able : Reads
able = record reads { capability_names = λ text. some ("tools" ∷ "text" ∷ "developer-role" ∷ []) }

abbrev able_snapshot : Snapshot
able_snapshot = snapshot_of route "v-1" 2 strategy (
    record (destination_of near [] []) { capabilities = capabilities }
    ∷ record (destination_of far capabilities []) { exclusion_reasons = "cooldown_active" ∷ [] }
    ∷ [])

able_loaded : load able "large" capabilities ≡ loaded able_snapshot
unfolding load load_destinations load_destination available_capabilities missing exclusions sort
    str_lt
able_loaded = refl

abbrev attempts : List Attempt
attempts = (run (some (engine falls_back)) able_snapshot whole).0.attempts

one_attempt : length attempts ≡ 1
unfolding run run_loop run_turn classify_attempt eligible sort
one_attempt = refl

run-CanServe_example :
    AreSentTo
      (CanServe (request_needs whole))
      (take 2 (filter eligible able_snapshot.destinations))
      attempts
run-CanServe_example =
    run-CanServe plain able (some (engine falls_back)) whole capabilities able_snapshot
      whole_accepted able_loaded
