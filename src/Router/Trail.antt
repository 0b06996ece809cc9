-- ===== src/Router/Trail.antt =====
-- The attempts of a run, read against the destinations that it was given.
use modelcairn.Base.{ℕ, ◌+◌, ◌≤◌, true, List, [], ◌∷◌, ◌≡◌, arith, length}
use modelcairn.Router.{Attempt, Destination}

-- An attempt that another follows was retryable and ended in error.
abbrev pub IsFollowed : Attempt → List Attempt → Type 0
IsFollowed a [] = Unit
IsFollowed a (b ∷ rest) = (a.retryable ≡ true) × (a.outcome ≡ "error")

-- Later attempts, numbered from `index + 1`, went to the first destinations of `ds`, in order, each
-- one only after an attempt that was classified retryable and ended in error.
abbrev pub IsTrail : ℕ → List Destination → List Attempt → Type 0
IsTrail index ds [] = Unit
IsTrail index [] (a ∷ rest) = ⊥
IsTrail index (d ∷ ds) (a ∷ rest) =
    (a.sequence ≡ index + 1)
    × (a.destination_id ≡ d.id)
    × IsFollowed a rest
    × IsTrail (index + 1) ds rest

pub length-IsTrail :
    (index : ℕ) (ds : List Destination) (rest : List Attempt)
    → IsTrail index ds rest
    → length rest ≤ length ds
length-IsTrail index ds [] h = omega arith
length-IsTrail index [] (a ∷ rest) h = absurd h
length-IsTrail index (d ∷ ds) (a ∷ rest) h = omega (arith, length-IsTrail (index + 1) ds rest h.3)

pub followed :
    (a : Attempt) (rest : List Attempt)
    → (a.retryable ≡ true) × (a.outcome ≡ "error")
    → IsFollowed a rest
followed a [] h = tt
followed a (b ∷ rest) h = h
