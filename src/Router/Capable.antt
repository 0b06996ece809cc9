-- ===== src/Router/Capable.antt =====
-- A request is parsed, a snapshot is loaded for its alias and its capabilities, and the engine runs on it, as in the chat
-- handler of internal/httpserver/data.go: the attempts go to destinations that can serve the request.
use mathlib.Core.Path.{subst}
use modelcairn.Base.{
  ℕ, zero, suc, ◌+◌, String, str_eq, Bool, true, Option, List, [], ◌∷◌, ◌≡◌, refl, sym, ap, ◌∙◌,
  arith, if_elim, Bool-cases, inl, inr, str_eq→≡, filter, take, All,
}
use modelcairn.Chat.{Request}
use modelcairn.Chat.Shape.{is_seen}
use modelcairn.Chat.Messages.{Decoders, accepted}
use modelcairn.Chat.Validate.{validate_request}
use modelcairn.Chat.Needs.{request_needs, is_seen-put, is_seen-sort}
use modelcairn.Chat.Required.{validate_request-IsRequired}
use modelcairn.Router.{Destination, eligible, Snapshot, Attempt}
use modelcairn.Router.Trail.{IsTrail}
use modelcairn.Router.Engine.{Engine, run}
use modelcairn.Router.Engine.Trail.{run-IsTrail}
use modelcairn.Router.Load.{Reads, DestinationRow, loaded}
use modelcairn.Router.LoadRoute.{required_set, load}
use modelcairn.Router.Usable.{covers, usable, IsLoadedFrom}
use modelcairn.Router.Snapshots.{AreLoadedFrom, load-IsUsable}

covers-seen :
    (c : String) (required available : List String)
    → covers required available ≡ true
    → is_seen c required ≡ true
    → is_seen c available ≡ true
covers-seen c [] available h k = ground arith
covers-seen c (x ∷ xs) available h k = elim (Bool-cases (str_eq c x)) [
  | inl e ↦ subst (λ y. is_seen y available ≡ true) (sym (str_eq→≡ c x e)) (ground (arith, h))
  | inr e ↦ covers-seen c xs available (ground (arith, h)) (ground (arith, k, e))
]

is_seen-required :
    (c : String) (caps : List String) → is_seen c (required_set caps) ≡ is_seen c caps
is_seen-required c [] = refl
is_seen-required c (x ∷ xs) = is_seen-put c x (required_set xs) ∙ rw (is_seen-required c xs) refl

usable-covers :
    (d : DestinationRow) (required available : List String) (cooling : Bool)
    → usable d required available cooling ≡ true
    → covers required available ≡ true
usable-covers d required available cooling h = ground (arith, h)

-- An eligible destination that has each of these capabilities.
abbrev pub CanServe : (String → Bool) → Destination → Type 0
CanServe needs d =
    (eligible d ≡ true) × ((c : String) → needs c ≡ true → is_seen c d.capabilities ≡ true)

loaded-CanServe :
    (R : Reads) (caps : List String) (name : String) (d : Destination)
    → IsLoadedFrom R (required_set caps) name d
    → eligible d ≡ true
    → CanServe (λ c. is_seen c caps) d
loaded-CanServe R caps name d l h = (
  h,
  λ c k.
      let covered =
        usable-covers l.from (required_set caps) l.available l.cooling (sym l.decides ∙ h) in
      ap (λ (x : Destination). is_seen c x.capabilities) (sym l.is_of)
      ∙ is_seen-sort c l.available
      ∙ covers-seen c (required_set caps) l.available covered (is_seen-required c caps ∙ k),
)

filter-CanServe :
    (R : Reads) (caps seen names : List String) (ds : List Destination)
    → AreLoadedFrom R (required_set caps) seen names ds
    → All (CanServe (λ c. is_seen c caps)) (filter eligible ds)
filter-CanServe R caps seen names [] h = tt
filter-CanServe R caps seen [] (d ∷ ds) h = absurd h
filter-CanServe R caps seen (name ∷ names) (d ∷ ds) h =
    let rest = filter-CanServe R caps (name ∷ seen) names ds h.3 in
    if_elim (All (CanServe (λ c. is_seen c caps))) (eligible d)
      (λ k. (loaded-CanServe R caps name d h.2 k, rest)) (λ k. rest)

All-take : {A : Type 0} (P : A → Type 0) (n : ℕ) (xs : List A) → All P xs → All P (take n xs)
All-take P zero xs h = tt
All-take P (suc n) [] h = tt
All-take P (suc n) (x ∷ xs) h = (h.0, All-take P n xs h.1)

-- The attempts went to the first of these destinations, one after the other, and each of these has the property.
abbrev pub AreSentTo : (Destination → Type 0) → List Destination → List Attempt → Type 0
AreSentTo P ds [] = Unit
AreSentTo P [] (a ∷ rest) = ⊥
AreSentTo P (d ∷ ds) (a ∷ rest) = (a.destination_id ≡ d.id) × P d × AreSentTo P ds rest

trail-AreSentTo :
    (P : Destination → Type 0) (index : ℕ) (ds : List Destination) (attempts : List Attempt)
    → All P ds
    → IsTrail index ds attempts
    → AreSentTo P ds attempts
trail-AreSentTo P index ds [] h t = tt
trail-AreSentTo P index [] (a ∷ rest) h t = absurd t
trail-AreSentTo P index (d ∷ ds) (a ∷ rest) h t =
    (t.1, h.0, trail-AreSentTo P (index + 1) ds rest h.1 t.3)

All-CanServe :
    (needs other : String → Bool) (ds : List Destination)
    → ((c : String) → needs c ≡ other c)
    → All (CanServe needs) ds
    → All (CanServe other) ds
All-CanServe needs other [] e h = tt
All-CanServe needs other (d ∷ ds) e h =
    ((h.0.0, λ c k. h.0.1 c (e c ∙ k)), All-CanServe needs other ds e h.1)

-- Let a request be accepted with the capabilities that it requires, and a snapshot be loaded for its alias and these
-- capabilities. The attempts of a run on this snapshot go, in order, to its first `max_attempts` eligible destinations, and
-- each of those that is tried has every capability that the request needs: text, those of its messages, and those of its
-- options.
pub run-CanServe :
    (S : Decoders) (R : Reads) (engine : Option Engine) (r : Request) (caps : List String)
    (s : Snapshot)
    → validate_request S r ≡ accepted caps
    → load R r.model caps ≡ loaded s
    → AreSentTo
        (CanServe (request_needs r))
        (take s.max_attempts (filter eligible s.destinations))
        (run engine s r).0.attempts
run-CanServe S R engine r caps s h k =
    let u = load-IsUsable R r.model caps s k in
    let able = filter-CanServe R caps [] u.definition.destinations s.destinations u.destinations in
    trail-AreSentTo (CanServe (request_needs r)) 0
      (take s.max_attempts (filter eligible s.destinations)) (run engine s r).0.attempts
      (All-take (CanServe (request_needs r)) s.max_attempts (filter eligible s.destinations) (
        All-CanServe (λ c. is_seen c caps) (request_needs r) (filter eligible s.destinations)
          (validate_request-IsRequired S r caps h).exact able))
      (run-IsTrail engine s r)
