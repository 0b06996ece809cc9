-- ===== src/LoginAdmission/Held.antt =====
-- What an address has left in the table of clients of internal/storage/admin_login.go, at one instant.
use modelcairn.Base.{
  ℕ, ◌+◌, ◌≤◌, String, Bool, true, false, Option, none, some, List, [], ◌∷◌, ◌≡◌, sym, ltb, str_eq,
  str_eq→≡, filter, All, ◌⊎◌, inl, inr, if_elim, Bool-cases, arith,
}
use mathlib.Core.Path.{subst}
use modelcairn.LoginAdmission.{FloatOps, LoginClient, refill, find, store}
use modelcairn.LoginAdmission.Buckets.{IsOrdered, Fits, refill-Fits}
use modelcairn.LoginAdmission.Clients.{str_eq_refl}

module _ (F : FloatOps) (k : String) (rate burst idle now : ℕ) where
  -- The client has at most `m` tokens when it is refilled.
  abbrev pub Has : ℕ → LoginClient F → Type 0
  Has m c = Fits F m (refill F c.bucket rate burst now)

  abbrev pub is_kept : String × LoginClient F → Bool
  is_kept p = ltb now (p.1.time_seen + idle)

  -- The address has at most `m` tokens by the first entry under it that is not idle, or by a new one.
  abbrev pub Holds : ℕ → List (String × LoginClient F) → Type 0
  Holds m [] = burst ≤ m
  Holds m ((j, c) ∷ rest) =
      (str_eq j k ≡ true → Has m c × ((ltb now (c.time_seen + idle) ≡ true) ⊎ Holds m rest))
      × (str_eq j k ≡ false → Holds m rest)

  pub Holds-capped :
      (O : IsOrdered F) (cs : List (String × LoginClient F))
      → All (λ (p : String × LoginClient F). Fits F burst (p.1.bucket)) cs
      → Holds burst cs
  Holds-capped O [] h = omega arith
  Holds-capped O ((j, c) ∷ rest) h = (
    λ e. (refill-Fits F O c.bucket rate burst now h.0, inr (Holds-capped O rest h.1)),
    λ e. Holds-capped O rest h.1,
  )

  pub Holds-filter :
      (m : ℕ) (cs : List (String × LoginClient F)) → Holds m cs → Holds m (filter is_kept cs)
  Holds-filter m [] h = h
  Holds-filter m ((j, c) ∷ rest) h =
      if_elim (Holds m) (is_kept (j, c))
        (λ kept. (λ e. ((h.0 e).0, inl kept), λ e. Holds-filter m rest (h.1 e)))
        (λ idle. elim (Bool-cases (str_eq j k)) [
          | inl e ↦ elim ((h.0 e).1) [
            | inl kept ↦ absurd (ground (arith, kept, idle))
            | inr r ↦ Holds-filter m rest r
          ]
          | inr e ↦ Holds-filter m rest (h.1 e)
        ])

  -- By what is found under the address.
  abbrev pub HoldsFound : ℕ → Option (LoginClient F) → Type 0
  HoldsFound m none = burst ≤ m
  HoldsFound m (some c) = Has m c

  pub find-HoldsFound :
      (m : ℕ) (cs : List (String × LoginClient F)) → Holds m cs → HoldsFound m (find F k cs)
  unfolding find
  find-HoldsFound m [] h = h
  find-HoldsFound m ((j, c) ∷ rest) h =
      if_elim (HoldsFound m) (str_eq j k) (λ e. (h.0 e).0) (λ e. find-HoldsFound m rest (h.1 e))

  -- What an address holds when its own entry is put into the table, which is not idle.
  pub store-Holds :
      (m : ℕ) (c : LoginClient F) (cs : List (String × LoginClient F))
      → Has m c
      → is_kept (k, c) ≡ true
      → Holds m (store F k c cs)
  unfolding store
  store-Holds m c [] h kept = (λ e. (h, inl kept), λ e. absurd (ground (arith, e, str_eq_refl k)))
  store-Holds m c ((j, d) ∷ rest) h kept =
      if_elim (Holds m) (str_eq j k)
        (λ e. (λ e. (h, inl kept), λ e. absurd (ground (arith, e, str_eq_refl k))))
        (λ e. (λ e'. absurd (ground (arith, e, e')), λ e'. store-Holds m c rest h kept))

  -- An entry under another address changes nothing.
  pub store-other :
      (m : ℕ) (i : String) (c : LoginClient F) (cs : List (String × LoginClient F))
      → str_eq i k ≡ false
      → Holds m cs
      → Holds m (store F i c cs)
  unfolding store
  store-other m i c [] ne h = (λ e. absurd (ground (arith, e, ne)), λ e. h)
  store-other m i c ((j, d) ∷ rest) ne h =
      if_elim (Holds m) (str_eq j i)
        (λ e.
          let ne' = subst (λ x. str_eq x k ≡ false) (sym (str_eq→≡ j i e)) ne in
          (λ e'. absurd (ground (arith, e', ne)), λ e'. h.1 ne'))
        (λ e. (
          λ e'. (
            (h.0 e').0,
            elim ((h.0 e').1) [ inl kept ↦ inl kept | inr r ↦ inr (store-other m i c rest ne r) ],
          ),
          λ e'. store-other m i c rest ne (h.1 e'),
        ))
