-- ===== src/Router/Snapshots.antt =====
-- A snapshot that `Load` returns is one that `Run` takes.
use mathlib.Core.Path.{subst}
use modelcairn.Base.{
  ℕ, suc, ◌≤◌, String, str_eq, true, false, ◌||◌, not, Option, none, some, List, [], ◌∷◌, ltb,
  length, ℤ, pos, negsuc, ◌≡◌, refl, ap, arith, if_elim, not-false, or-false, not_ltb→le,
}
use modelcairn.Chat.Shape.{is_seen}
use modelcairn.Router.{Destination, Snapshot}
use modelcairn.Router.Load.{
  Row, row, no_rows, query_error, RouteRow, StrategyDefinition, Reads, loaded, then_load,
  load_destination, load_destinations,
}
use modelcairn.Router.LoadRoute.{
  required_set, nat_of, not_within, bad_strategy, snapshot_of, committed, with_definition,
  with_version, with_route, begun, load,
}
use modelcairn.Router.Usable.{IsLoadedFrom, loaded-inj, then_loaded, load_destination-IsLoadedFrom}

-- The destinations were loaded under these names, in order; no name is blank, or seen before.
abbrev pub AreLoadedFrom :
    Reads → List String → List String → List String → List Destination → Type 0
AreLoadedFrom R required seen [] [] = Unit
AreLoadedFrom R required seen [] (d ∷ ds) = ⊥
AreLoadedFrom R required seen (name ∷ names) [] = ⊥
AreLoadedFrom R required seen (name ∷ names) (d ∷ ds) =
    (str_eq name "" ≡ false)
    × (is_seen name seen ≡ false)
    × IsLoadedFrom R required name d
    × AreLoadedFrom R required (name ∷ seen) names ds

-- A snapshot for the alias: what the route's strategy says, within the limits.
pub record IsUsable (R : Reads) (alias : String) (required : List String) (s : Snapshot)
    : Type 0 where
  pub route : RouteRow
  pub reads : R.route alias ≡ row route
  pub enabled : route.enabled ≡ true
  pub definition : StrategyDefinition
  pub attempts : (1 ≤ s.max_attempts) × (s.max_attempts ≤ 32)
  pub attempt_time : (100000000 ≤ s.attempt_timeout) × (s.attempt_timeout ≤ 600000000000)
  pub total_time : (100000000 ≤ s.total_timeout) × (s.total_timeout ≤ 900000000000)
  pub count : (1 ≤ length s.destinations) × (length s.destinations ≤ 32)
  pub destinations :
      AreLoadedFrom R (required_set required) [] definition.destinations s.destinations

load_destinations-AreLoadedFrom :
    (R : Reads) (required names seen : List String) (ds : List Destination)
    → load_destinations R required names seen ≡ loaded ds
    → AreLoadedFrom R required seen names ds
unfolding load_destinations
load_destinations-AreLoadedFrom R required [] seen [] h = tt
load_destinations-AreLoadedFrom R required [] seen (d ∷ ds) h =
    ground (arith, loaded-inj [] (d ∷ ds) h)
load_destinations-AreLoadedFrom R required (name ∷ names) seen ds h =
    if_elim (λ x. x ≡ loaded ds → AreLoadedFrom R required seen (name ∷ names) ds)
      (str_eq name "" || is_seen name seen) (λ k m. ground arith)
      (λ k m.
        let fresh = or-false (str_eq name "") (is_seen name seen) k in
        let rest = load_destinations R required names (name ∷ seen) in
        let x =
          then_loaded (load_destination R required name)
            (λ d. then_load rest (λ ds. loaded (d ∷ ds))) ds m in
        let y = then_loaded rest (λ ds. loaded (x.0 ∷ ds)) ds x.2 in
        subst (AreLoadedFrom R required seen (name ∷ names)) (loaded-inj (x.0 ∷ y.0) ds y.2) (
          fresh.0,
          fresh.1,
          load_destination-IsLoadedFrom R required name x.0 x.1,
          load_destinations-AreLoadedFrom R required names (name ∷ seen) y.0 y.1,
        ))
      h

length-AreLoadedFrom :
    (R : Reads) (required names seen : List String) (ds : List Destination)
    → AreLoadedFrom R required seen names ds
    → length ds ≡ length names
length-AreLoadedFrom R required [] seen [] h = refl
length-AreLoadedFrom R required [] seen (d ∷ ds) h = absurd h
length-AreLoadedFrom R required (name ∷ names) seen [] h = absurd h
length-AreLoadedFrom R required (name ∷ names) seen (d ∷ ds) h =
    ap suc (length-AreLoadedFrom R required names (name ∷ seen) ds h.3)

within_nat :
    (x : ℤ) (low high : ℕ) → not_within x low high ≡ false → (low ≤ nat_of x) × (nat_of x ≤ high)
within_nat (pos n) low high h = ground arith
within_nat (negsuc n) low high h = ground arith

module _ (R : Reads) (alias : String) (required : List String) (s : Snapshot) where
  committed-snapshot : (e : Option String) (x : Snapshot) → committed e x ≡ loaded s → x ≡ s
  committed-snapshot none x h = loaded-inj x s h
  committed-snapshot (some e) x h = ground arith

  snapshot_of-IsUsable :
      (r : RouteRow) (version_id : String) (version : ℕ) (d : StrategyDefinition)
      (ds : List Destination)
      → R.route alias ≡ row r
      → r.enabled ≡ true
      → bad_strategy d ≡ false
      → AreLoadedFrom R (required_set required) [] d.destinations ds
      → IsUsable R alias required (snapshot_of r version_id version d ds)
  snapshot_of-IsUsable r version_id version d ds hr he hb hd =
      let a =
        or-false
          (ltb (length d.destinations) 1
            || ltb 32 (length d.destinations)
            || not_within d.max_attempts 1 32
            || not_within d.attempt_timeout_ms 100 600000)
          (not_within d.total_timeout_ms 100 900000) hb in
      let b =
        or-false
          (ltb (length d.destinations) 1
            || ltb 32 (length d.destinations)
            || not_within d.max_attempts 1 32)
          (not_within d.attempt_timeout_ms 100 600000) a.0 in
      let c =
        or-false (ltb (length d.destinations) 1 || ltb 32 (length d.destinations))
          (not_within d.max_attempts 1 32) b.0 in
      let e = or-false (ltb (length d.destinations) 1) (ltb 32 (length d.destinations)) c.0 in
      let n = length-AreLoadedFrom R (required_set required) d.destinations [] ds hd in
      let attempt = within_nat d.attempt_timeout_ms 100 600000 b.1 in
      let total = within_nat d.total_timeout_ms 100 900000 a.1 in
      let few = not_ltb→le 32 (length d.destinations) e.1 in
      let many = not_ltb→le (length d.destinations) 1 e.0 in
      record {
        route = r;
        reads = hr;
        enabled = he;
        definition = d;
        attempts = within_nat d.max_attempts 1 32 c.1;
        attempt_time = (omega (arith, attempt.0), omega (arith, attempt.1));
        total_time = (omega (arith, total.0), omega (arith, total.1));
        count = (omega (arith, n, many), omega (arith, n, few));
        destinations = hd;
      }

  defined-IsUsable :
      (r : RouteRow) (version_id : String) (version : ℕ) (d : Option StrategyDefinition)
      → R.route alias ≡ row r
      → r.enabled ≡ true
      → with_definition R required r version_id version d ≡ loaded s
      → IsUsable R alias required s
  defined-IsUsable r version_id version none hr he h = ground arith
  defined-IsUsable r version_id version (some d) hr he h =
      if_elim (λ x. x ≡ loaded s → IsUsable R alias required s) (bad_strategy d)
        (λ k m. ground arith)
        (λ k m.
          let x =
            then_loaded (load_destinations R (required_set required) d.destinations [])
              (λ ds. committed R.commit_error (snapshot_of r version_id version d ds)) s m in
          subst (IsUsable R alias required)
            (committed-snapshot R.commit_error (snapshot_of r version_id version d x.0) x.2)
            (snapshot_of-IsUsable r version_id version d x.0 hr he k (
              load_destinations-AreLoadedFrom R (required_set required) d.destinations [] x.0 x.1)))
        h

  versioned-IsUsable :
      (r : RouteRow) (version_id : Option String) (version : Option ℕ) (definition : Option String)
      → R.route alias ≡ row r
      → r.enabled ≡ true
      → with_version R required r version_id version definition ≡ loaded s
      → IsUsable R alias required s
  versioned-IsUsable r none version definition hr he h = ground arith
  versioned-IsUsable r (some i) none definition hr he h = ground arith
  versioned-IsUsable r (some i) (some v) none hr he h = ground arith
  versioned-IsUsable r (some i) (some v) (some text) hr he h =
      defined-IsUsable r i v (R.strategy text) hr he h

  route-IsUsable :
      (r : Row RouteRow)
      → R.route alias ≡ r
      → with_route R required r ≡ loaded s
      → IsUsable R alias required s
  route-IsUsable no_rows hr h = ground arith
  route-IsUsable (query_error e) hr h = ground arith
  route-IsUsable (row r) hr h =
      if_elim (λ x. x ≡ loaded s → IsUsable R alias required s) (not r.enabled)
        (λ k m. ground arith)
        (λ k m.
          versioned-IsUsable r r.version_id r.strategy_version r.definition hr
            (not-false r.enabled k) m)
        h

  begun-IsUsable :
      (e : Option String) → begun R alias required e ≡ loaded s → IsUsable R alias required s
  begun-IsUsable none h = route-IsUsable (R.route alias) refl h
  begun-IsUsable (some e) h = ground arith

  -- A snapshot that `Load` returns is of a route that is enabled. It has 1 to 32 destinations, under different names
  -- that are not blank, 1 to 32 attempts, an attempt's time of 0.1 to 600 seconds and a total time of 0.1 to 900
  -- seconds. A destination is eligible exactly if it, its model, its connection and its egress are enabled, its credential
  -- is active, the model has every required capability, and no cooldown is active.
  pub load-IsUsable : load R alias required ≡ loaded s → IsUsable R alias required s
  unfolding load
  load-IsUsable h = begun-IsUsable R.begin_error h
