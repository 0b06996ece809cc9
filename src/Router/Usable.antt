-- ===== src/Router/Usable.antt =====
-- What a snapshot that `Load` returns is like.
use mathlib.Core.List.{Permᴰ}
use modelcairn.Base.{
  String, str_eq, append, Bool, true, false, ◌&&◌, not, Option, none, some, List, [], ◌∷◌, ◌++◌,
  ◌≡◌, refl, sym, ap, ◌∙◌, arith,
}
use modelcairn.Base.Text.{str_lt, str_lt-asym, str_lt-cotrans}
use modelcairn.Base.Sort.{sort, sort-Permᴰ}
use modelcairn.Chat.Shape.{is_seen}
use modelcairn.Router.{Destination, eligible}
use modelcairn.Router.Load.{
  Row, row, no_rows, query_error, DestinationRow, Reads, Loaded, loaded, failed, then_load,
  reason_if, missing, exclusions, destination_of, with_cooling, with_names, with_row,
  available_capabilities, load_destination,
}

is_nil : List String → Bool
is_nil [] = true
is_nil (x ∷ xs) = false

is_nil-append : (xs ys : List String) → is_nil (xs ++ ys) ≡ (is_nil xs && is_nil ys)
unfolding is_nil
is_nil-append [] ys = refl
is_nil-append (x ∷ xs) ys = refl

is_nil-reason : (b : Bool) (reason : String) → is_nil (reason_if b reason) ≡ not b
unfolding is_nil
is_nil-reason true reason = refl
is_nil-reason false reason = refl

is_nil-front :
    (b : Bool) (reason : String) (xs : List String)
    → is_nil (reason_if (not b) reason ++ xs) ≡ (b && is_nil xs)
unfolding is_nil
is_nil-front true reason xs = refl
is_nil-front false reason xs = refl

is_nil-Permᴰ : {xs ys : List String} → Permᴰ xs ys → is_nil xs ≡ is_nil ys
unfolding is_nil
is_nil-Permᴰ Permᴰ.nil = refl
is_nil-Permᴰ (Permᴰ.cons e d) = refl
is_nil-Permᴰ (Permᴰ.swap e f) = refl
is_nil-Permᴰ (Permᴰ.trans d e) = is_nil-Permᴰ d ∙ is_nil-Permᴰ e

eligible-is_nil :
    (d : Destination) (xs : List String) → d.exclusion_reasons ≡ xs → eligible d ≡ is_nil xs
unfolding eligible is_nil
eligible-is_nil d xs e = ap is_nil e

-- Each required capability is available.
abbrev pub covers : List String → List String → Bool
covers [] available = true
covers (c ∷ cs) available = is_seen c available && covers cs available

is_nil-missing :
    (required available : List String)
    → is_nil (missing required available) ≡ covers required available
unfolding is_nil missing
is_nil-missing [] available = refl
is_nil-missing (c ∷ cs) available =
    rw
      (
        is_nil-front (is_seen c available) (append "capability_missing:" c) (missing cs available),
        is_nil-missing cs available,
      )
      refl

-- Nothing speaks against a destination.
abbrev pub usable : DestinationRow → List String → List String → Bool → Bool
usable d required available cooling =
    d.enabled
    && (d.model_enabled
        && (d.connection_enabled
            && (str_eq d.credential_status "active"
                && (d.egress_enabled && (covers required available && not cooling)))))

is_nil-exclusions :
    (d : DestinationRow) (required available : List String) (cooling : Bool)
    → is_nil (exclusions d required available cooling) ≡ usable d required available cooling
unfolding exclusions
is_nil-exclusions d required available cooling =
    is_nil-front d.enabled "destination_disabled" _
    ∙ ap (λ z. d.enabled && z)
        (is_nil-front d.model_enabled "model_disabled" _
          ∙ ap (λ z. d.model_enabled && z)
              (is_nil-front d.connection_enabled "connection_disabled" _
                ∙ ap (λ z. d.connection_enabled && z)
                    (is_nil-front (str_eq d.credential_status "active")
                        (append "credential_" d.credential_status) _
                      ∙ ap (λ z. str_eq d.credential_status "active" && z)
                          (is_nil-front d.egress_enabled "egress_disabled" _
                            ∙ ap (λ z. d.egress_enabled && z)
                                (is_nil-append (missing required available)
                                    (reason_if cooling "cooldown_active")
                                  ∙ rw (is_nil-missing required available, is_nil-reason cooling)
                                      refl)))))

-- What a destination was loaded from: a row under its name in the strategy; and it is eligible exactly if nothing
-- speaks against the row.
pub record IsLoadedFrom (R : Reads) (required : List String) (name : String) (d : Destination)
    : Type 0 where
  pub from : DestinationRow
  pub available : List String
  pub cooling : Bool
  pub reads : R.destination name ≡ row from
  pub cools : R.cooling from ≡ row cooling
  pub names : List String
  pub decodes : R.capability_names from.capabilities_json ≡ some names
  pub known : available_capabilities names [] ≡ loaded available
  pub is_of : destination_of from available (exclusions from required available cooling) ≡ d
  pub decides : eligible d ≡ usable from required available cooling

loaded_or : {A : Type 0} → A → Loaded A → A
loaded_or d (loaded x) = x
loaded_or d (failed e) = d

pub loaded-inj : {A : Type 0} (x y : A) → loaded x ≡ loaded y → x ≡ y
unfolding loaded_or
loaded-inj x y h = ap (loaded_or x) h

pub then_loaded :
    {A B : Type 0} (x : Loaded A) (next : A → Loaded B) (z : B)
    → then_load x next ≡ loaded z
    → (y : A) × (x ≡ loaded y) × (next y ≡ loaded z)
then_loaded (loaded y) next z h = (y, refl, h)
then_loaded (failed e) next z h = ground arith

module _ (R : Reads) (required : List String) (name : String) (d : Destination) where
  decided :
      (from : DestinationRow) (available : List String) (cooling : Bool)
      → destination_of from available (exclusions from required available cooling) ≡ d
      → eligible d ≡ usable from required available cooling
  decided from available cooling e =
      let reasons = exclusions from required available cooling in
      ap eligible (sym e)
      ∙ eligible-is_nil (destination_of from available reasons) (sort str_lt reasons) refl
      ∙ is_nil-Permᴰ (sort-Permᴰ str_lt str_lt-asym str_lt-cotrans reasons)
      ∙ is_nil-exclusions from required available cooling

  cooled-IsLoadedFrom :
      (from : DestinationRow) (names available : List String) (cooling : Row Bool)
      → R.destination name ≡ row from
      → R.capability_names from.capabilities_json ≡ some names
      → available_capabilities names [] ≡ loaded available
      → R.cooling from ≡ cooling
      → with_cooling from required available cooling ≡ loaded d
      → IsLoadedFrom R required name d
  cooled-IsLoadedFrom from names available no_rows hr hn ha hc h = ground arith
  cooled-IsLoadedFrom from names available (query_error e) hr hn ha hc h = ground arith
  cooled-IsLoadedFrom from names available (row cooling) hr hn ha hc h =
      let e =
        loaded-inj (destination_of from available (exclusions from required available cooling)) d
          h in
      record {
        from = from;
        available = available;
        cooling = cooling;
        reads = hr;
        cools = hc;
        names = names;
        decodes = hn;
        known = ha;
        is_of = e;
        decides = decided from available cooling e;
      }

  named-IsLoadedFrom :
      (from : DestinationRow) (names : Option (List String))
      → R.destination name ≡ row from
      → R.capability_names from.capabilities_json ≡ names
      → with_names R from required names ≡ loaded d
      → IsLoadedFrom R required name d
  named-IsLoadedFrom from none hr hn h = ground arith
  named-IsLoadedFrom from (some names) hr hn h =
      let x =
        then_loaded (available_capabilities names [])
          (λ available. with_cooling from required available (R.cooling from)) d h in
      cooled-IsLoadedFrom from names x.0 (R.cooling from) hr hn x.1 refl x.2

  row-IsLoadedFrom :
      (r : Row DestinationRow)
      → R.destination name ≡ r
      → with_row R required r ≡ loaded d
      → IsLoadedFrom R required name d
  row-IsLoadedFrom no_rows hr h = ground arith
  row-IsLoadedFrom (query_error e) hr h = ground arith
  row-IsLoadedFrom (row from) hr h =
      named-IsLoadedFrom from (R.capability_names from.capabilities_json) hr refl h

  pub load_destination-IsLoadedFrom :
      load_destination R required name ≡ loaded d → IsLoadedFrom R required name d
  unfolding load_destination
  load_destination-IsLoadedFrom h = row-IsLoadedFrom (R.destination name) refl h
