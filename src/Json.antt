-- ===== src/Json.antt =====
-- JSON values, as encoding/json sees them. A `json.RawMessage` stands for the value that its bytes
-- spell; an absent one (no bytes) is `none` of `Option Json`.
use text.Mathlib.TextPositions.{eq_refl}
use modelcairn.Base.{
  ◌≡◌, refl, arith, eq_iff, ℤ, String, Bool, Option, none, some, List, [], ◌∷◌, str_eq,
  if◌then◌else◌,
}

mutual
  -- A number is an integer, or a fraction, of which the code reads nothing.
  pub data Json : Type 0 where
    null : Json
    bool : Bool → Json
    int : ℤ → Json
    fraction : String → Json
    str : String → Json
    arr : Items → Json
    obj : Fields → Json

  pub data Items : Type 0 where
    nil : Items
    cons : Json → Items → Items

  pub data Fields : Type 0 where
    end : Fields
    field : String → Json → Fields → Fields

-- `object[name]` with its presence. A document that passed the duplicate check has each name once.
abbrev pub get : Fields → String → Option Json
get end k = none
get (field j v rest) k = if str_eq j k then some v else get rest k

-- `object[name] = value`
abbrev pub put : Fields → String → Json → Fields
put end k v = field k v end
put (field j w rest) k v =
    let rest' = put rest k v in if str_eq j k then field k v rest else field j w rest'

abbrev pub items : Items → List Json
items nil = []
items (cons v rest) = v ∷ items rest

-- `put` sets its key and no other.
pub get-put :
    (fs : Fields) (k j : String) (v : Json)
    → get (put fs k v) j ≡ (if str_eq k j then some v else get fs j)
get-put end k j v = refl
get-put (field i w rest) k j v =
    ground (arith, eq_iff i k, eq_iff i j, eq_iff k j, get-put rest k j v)

pub get-put_self : (fs : Fields) (k : String) (v : Json) → get (put fs k v) k ≡ some v
get-put_self fs k v = rw get-put (rw (eq_refl k))
