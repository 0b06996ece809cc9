-- ===== src/Plan/Binding.antt =====
-- internal/storage/plan_token.go: `canonicalBinding`, on the snapshot that a plan is bound to.
use modelcairn.Base.{
  String, str_eq, Bool, true, false, ◌||◌, not, ◌≡◌, ap, Option, none, some, List, [], ◌∷◌, ltb,
  ◌==◌, length, ℤ, pos, is_neg, leb_ℤ, eq_ℤ, if◌then◌else◌,
}
use Prim.Native.String.{len}
use modelcairn.Base.Sort.{sort}
use modelcairn.Config.Patterns.{is_name}
use modelcairn.Plan.Base64.{Bytes, decode}
use modelcairn.Plan.Order.{ObservedResource, less, same_key}

-- The errors of plan_token.go, plan_transaction.go and the database below them.
pub data PlanError : Type 0 where
  invalid_plan : PlanError
  plan_expired : PlanError
  plan_already_used : PlanError
  key_material_unavailable : PlanError
  repository : String → PlanError
  failing : String → PlanError

pub record PlanBinding : Type 0 where
  pub revision : ℤ
  pub digest : Bytes
  pub observed : List ObservedResource

abbrev pub valid_kinds : List String
valid_kinds =
    "Provider" ∷ "ProviderAccount" ∷ "ProviderConnection" ∷ "Credential" ∷ "Egress" ∷ "Model"
    ∷ "Destination" ∷ "Strategy" ∷ "Route" ∷ "AgentToken" ∷ []

abbrev pub elem : String → List String → Bool
elem x [] = false
elem x (y ∷ ys) = str_eq x y || elem x ys

abbrev pub same_bool : Bool → Bool → Bool
same_bool true b = b
same_bool false b = not b

-- The two checks of one resource.
unfoldable pub invalid_item : ObservedResource → Bool
invalid_item item =
    not (elem item.kind valid_kinds)
    || not (is_name item.name)
    || is_neg item.version
    || not (same_bool (str_eq item.id "") (eq_ℤ item.version (pos 0)))
    || ltb 128 (len item.id)

-- `i > 0 && item` has the key of `Observed[i-1]`
abbrev pub repeats : Option ObservedResource → ObservedResource → Bool
repeats none item = false
repeats (some previous) item = same_key item previous

-- The loop over the sorted resources, with the one before.
unfoldable pub bad_items : Option ObservedResource → List ObservedResource → Bool
bad_items previous [] = false
bad_items previous (item ∷ rest) =
    invalid_item item || repeats previous item || bad_items (some item) rest

-- The digest is that of SHA-256.
unfoldable pub bad_digest : Option Bytes → Bool
bad_digest none = true
bad_digest (some digest) = not (length digest == 32)

pub data Result {ℓ} (A : Type ℓ) : Type ℓ where
  ok : A → Result A
  fail : PlanError → Result A

ok_or : {A : Type 0} → A → Result A → A
ok_or d (ok x) = x
ok_or d (fail e) = d

pub ok-inj : {A : Type 0} (x y : A) → ok x ≡ ok y → x ≡ y
unfolding ok_or
ok-inj x y h = ap (ok_or x) h

abbrev pub sorted : PlanBinding → PlanBinding
sorted b = record b { observed = sort less b.observed }

unfoldable pub canonical_binding : PlanBinding → Result PlanBinding
canonical_binding b =
    if bad_digest (decode b.digest)
      || not (leb_ℤ (pos 1) b.revision)
      || bad_items none (sorted b).observed
    then fail invalid_plan
    else ok (sorted b)
