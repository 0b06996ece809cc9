-- ===== src/Plan/Order.antt =====
-- The order of internal/storage/plan_token.go on observed resources, and the laws of it that sorting needs.
use modelcairn.Base.{
  String, str_eq, Bool, true, false, ◌&&◌, ◌||◌, not, ◌≡◌, refl, sym, ◌∙◌, arith, ℤ, if◌then◌else◌,
}
use modelcairn.Base.Text.{str_lt, str_lt-asym, str_lt-cotrans, str_eq_lt}

pub record ObservedResource : Type 0 where
  pub kind : String
  pub name : String
  pub id : String
  pub version : ℤ

-- The kinds and the names are equal.
unfoldable pub same_key : ObservedResource → ObservedResource → Bool
same_key a b = str_eq a.kind b.kind && str_eq a.name b.name

-- The comparison that `sort.Slice` is given.
unfoldable pub less : ObservedResource → ObservedResource → Bool
less a b = if str_eq a.kind b.kind then str_lt a.name b.name else str_lt a.kind b.kind

less-kinds :
    (a b : ObservedResource)
    → less a b ≡ (
        if if str_lt a.kind b.kind then false else not (str_lt b.kind a.kind)
        then str_lt a.name b.name
        else str_lt a.kind b.kind)
unfolding less
less-kinds a b = rw (str_eq_lt a.kind b.kind) refl

pub less-asym : (a b : ObservedResource) → less a b ≡ true → less b a ≡ false
less-asym a b h =
    let k = sym (less-kinds a b) ∙ h in
    rw (less-kinds b a) (
      ground
        (arith, k, str_lt-asym a.kind b.kind, str_lt-asym a.name b.name, str_lt-asym b.kind a.kind))

pub less-cotrans : (a b c : ObservedResource) → less a c ≡ true → (less a b || less b c) ≡ true
less-cotrans a b c h =
    let k = sym (less-kinds a c) ∙ h in
    let cut = str_lt-cotrans in
    rw (less-kinds a b, less-kinds b c)
      (ground (
        arith,
        k,
        cut a.name b.name c.name,
        cut a.kind b.kind c.kind,
        cut a.kind c.kind b.kind,
        cut b.kind a.kind c.kind,
        cut b.kind c.kind a.kind,
        cut c.kind a.kind b.kind,
        cut c.kind b.kind a.kind,
        str_lt-asym a.kind c.kind,
      ))

-- Resources that are not in order either way have one key.
pub less-tri : (a b : ObservedResource) → less a b ≡ false → less b a ≡ false → same_key b a ≡ true
unfolding same_key
less-tri a b h k =
    let m = sym (less-kinds a b) ∙ h in
    let n = sym (less-kinds b a) ∙ k in
    rw (str_eq_lt b.kind a.kind, str_eq_lt b.name a.name) (ground (arith, m, n))
