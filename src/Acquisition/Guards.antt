-- ===== src/Acquisition/Guards.antt =====
-- The log of a fetch: a URL is used right after its host was resolved to allowed addresses.
use omniverse_v.Prelude.{
  ◌≡◌, refl, Bool, true, false, not, List, [], ◌∷◌, ◌&&◌, Bool-cases, inl, inr, arith, is_empty,
}
use omniverse_v.Context.{Text}
use omniverse_v.Acquisition.{
  ok, Address, not_an_address, ip, AcquisitionPolicy, resolved, requested, rendered, Log, Web,
  check_addresses, check_host, ◌>>=◌,
}
use omniverse_v.Acquisition.Service.{host_of, canonicalize_url, resolve, validate_url}
use omniverse_v.Acquisition.Triples.{Runs, Post-after, Post-then, Post-logged}

-- An address that the policy lets through.
abbrev pub IsAllowed : AcquisitionPolicy → Address → Type 0
IsAllowed policy not_an_address = ⊥
IsAllowed policy (ip is_global) = (policy.allow_private ≡ false) → is_global ≡ true

abbrev pub AllAllowed : AcquisitionPolicy → List Address → Type 0
AllAllowed policy [] = Unit
AllAllowed policy (a ∷ rest) = IsAllowed policy a × AllAllowed policy rest

module _ (web : Web) (policy : AcquisitionPolicy) where
  -- The exchange before was the resolution of the URL's host, to allowed addresses, one at least.
  abbrev pub Vetted : Text → Log → Type 0
  Vetted url [] = ⊥
  Vetted url (resolved host addresses ∷ log) =
      (host_of web (web.urlsplit url) ≡ ok host)
      × (is_empty addresses ≡ false)
      × AllAllowed policy addresses
  Vetted url (requested u ∷ log) = ⊥
  Vetted url (rendered u ∷ log) = ⊥

  abbrev pub Guarded : Log → Type 0
  Guarded [] = Unit
  Guarded (resolved host addresses ∷ log) = Guarded log
  Guarded (requested url ∷ log) = Vetted url log × Guarded log
  Guarded (rendered url ∷ log) = Vetted url log × Guarded log

check_addresses-allowed :
    (policy : AcquisitionPolicy) (addresses : List Address) (b : Bool)
    → check_addresses policy.allow_private addresses ≡ ok b
    → AllAllowed policy addresses
unfolding check_addresses
check_addresses-allowed policy [] b e = tt
check_addresses-allowed policy (not_an_address ∷ rest) b e = cc
check_addresses-allowed policy (ip is_global ∷ rest) b e =
    elim (Bool-cases (not policy.allow_private && not is_global)) [
      | inl y ↦ cc (rw y at e)
      | inr n ↦ (λ m. grind arith, check_addresses-allowed policy rest b (rw n at e))
    ]

check_host-allowed :
    (policy : AcquisitionPolicy) (addresses : List Address) (b : Bool)
    → check_host policy.allow_private addresses ≡ ok b
    → (is_empty addresses ≡ false) × AllAllowed policy addresses
check_host-allowed policy [] b e = cc
check_host-allowed policy (a ∷ rest) b e = (refl, check_addresses-allowed policy (a ∷ rest) b e)

module _ (web : Web) (policy : AcquisitionPolicy) where
  abbrev pub Ready : Text → Log → Type 0
  Ready url log = Vetted web policy url log × Guarded web policy log

  -- The resolution of a host is the last exchange.
  abbrev Resolved : Text → List Address → Log → Type 0
  Resolved host addresses [] = ⊥
  Resolved host addresses (resolved h a ∷ log) =
      (h ≡ host) × (a ≡ addresses) × Guarded web policy log
  Resolved host addresses (requested u ∷ log) = ⊥
  Resolved host addresses (rendered u ∷ log) = ⊥

  resolve-Resolved :
      (host : Text)
      → Runs (Guarded web policy) (resolve web host) (Resolved host) (Guarded web policy)
  resolve-Resolved host log g =
      Post-logged (Resolved host) (Guarded web policy) (web.resolve log host) log (resolved host)
        (λ addresses. (refl, refl, g)) g

  Resolved-Ready :
      (url host : Text) (addresses : List Address) (b : Bool) (log : Log)
      → host_of web (web.urlsplit url) ≡ ok host
      → check_host policy.allow_private addresses ≡ ok b
      → Resolved host addresses log
      → Ready url log
  Resolved-Ready url host addresses b [] h c r = absurd r
  Resolved-Ready url host addresses b (resolved k a ∷ log) h c (p, q, g) =
      let (some_address, allowed) = check_host-allowed policy addresses b c in
      ((rw p h, rw q some_address, rw q allowed), g)
  Resolved-Ready url host addresses b (requested u ∷ log) h c r = absurd r
  Resolved-Ready url host addresses b (rendered u ∷ log) h c r = absurd r

  Resolved-Guarded :
      (host : Text) (addresses : List Address) (log : Log)
      → Resolved host addresses log
      → Guarded web policy log
  Resolved-Guarded host addresses [] r = absurd r
  Resolved-Guarded host addresses (resolved k a ∷ log) (p, q, g) = g
  Resolved-Guarded host addresses (requested u ∷ log) r = absurd r
  Resolved-Guarded host addresses (rendered u ∷ log) r = absurd r

  pub validate_url-Ready :
      (url : Text)
      → Runs (Guarded web policy) (validate_url web policy url) Ready (Guarded web policy)
  unfolding validate_url ◌>>=◌
  validate_url-Ready url log g =
      Post-then Ready (Guarded web policy) (canonicalize_url web url) log _
        (λ canonical e.
          Post-then Ready (Guarded web policy) (host_of web (web.urlsplit canonical)) log _
            (λ host h.
              Post-after (Resolved host) Ready (Guarded web policy) (resolve web host log) _
                (resolve-Resolved host log g)
                (λ addresses l r.
                  Post-then Ready (Guarded web policy) (check_host policy.allow_private addresses) l
                    _ (λ b c. Resolved-Ready canonical host addresses b l h c r)
                    (Resolved-Guarded host addresses l r)))
            g)
        g
