-- ===== src/Chat/Accepts.antt =====
-- `validateJSONShape` of internal/chatcompletions/request.go, as a whole.
use modelcairn.Base.{◌≤◌, none, List, [], ◌∷◌, ◌≡◌, ◌↔◌, refl, arith}
use modelcairn.Json.{Json}
use modelcairn.Chat.Shape.{
  Token, enough, at_end, Walk, walked, refused, no_fuel, walk_json, validate_json_shape,
}
use modelcairn.Chat.Tokens.{spell, depth, IsUnambiguous}
use modelcairn.Chat.Complete.{need-enough, walk_json-spell}
use modelcairn.Chat.Sound.{walk_json-IsValue}

at_end-none : (w : Walk) → at_end w ≡ none → w ≡ walked []
at_end-none (walked []) h = refl
at_end-none (walked (t ∷ rest)) h = ground arith
at_end-none (refused e) h = ground arith
at_end-none no_fuel h = ground arith

-- A list of tokens is accepted if and only if it spells one JSON value, nothing after it, with at most 64 arrays and
-- objects around any part of it and no object with the same name twice.
pub validate_json_shape-accepts :
    (tokens : List Token)
    → (validate_json_shape tokens ≡ none)
      ↔ ((v : Json) × (tokens ≡ spell v []) × (depth v ≤ 64) × IsUnambiguous v)
unfolding validate_json_shape walk_json
validate_json_shape-accepts tokens = (
  λ h.
      let x =
        walk_json-IsValue (enough tokens) 0 tokens []
          (at_end-none (walk_json (enough tokens) 0 tokens) h) in
      (x.0, x.1, omega (arith, x.2), x.3),
  λ x.
      rw
        (
          x.1,
          walk_json-spell (enough (spell x.0 [])) 0 x.0 [] (need-enough x.0) (omega (arith, x.2))
              x.3,
        )
        refl,
)
