-- ===== src/Session/Custody.antt =====
-- The leases of a session of crates/pgferry/src/session.rs: those that it was given, the one that it
-- holds and those that it gave up. They are weighed by the instant at which their connections were
-- opened, which nothing changes: equal weights, however the instants are weighed, are equal leases.
pub mod Legs
pub mod Scattering
use pgferry.Prelude.{
  ℕ, ◌+◌, ◌≡◌, refl, ap, Option, none, some, List, [], ◌∷◌, ◌++◌, Bool, true, arith, is_none,
}
use pgferry.Pool.{UpstreamLease}
use pgferry.Session.{Release, checked_in, detached, destroyed, dropped, Pump}
use pgferry.Session.Effects.{destroy_lease, give_up}

module _ (v : ℕ → ℕ) where
  abbrev pub weight : List UpstreamLease → ℕ
  weight [] = 0
  weight (l ∷ ls) = v l.created_at + weight ls

  abbrev pub weight_held : Option UpstreamLease → ℕ
  weight_held none = 0
  weight_held (some l) = v l.created_at

  abbrev pub weight_of : Release → ℕ
  weight_of (checked_in l hygiene) = v l.created_at
  weight_of (detached l dirty) = v l.created_at
  weight_of (destroyed l) = v l.created_at
  weight_of (dropped l) = v l.created_at

  abbrev pub weight_released : List Release → ℕ
  weight_released [] = 0
  weight_released (r ∷ rs) = weight_of r + weight_released rs

  pub weight_released-append :
      (rs qs : List Release) → weight_released (rs ++ qs) ≡ weight_released rs + weight_released qs
  weight_released-append [] qs = omega arith
  weight_released-append (r ∷ rs) qs = omega (arith, weight_released-append rs qs)

-- Each lease that the session was given is held or was given up, once.
abbrev pub Custody : {Ctx : Type 0} → Pump Ctx → Type 0
Custody p = (v : ℕ → ℕ) → weight_released v p.released + weight_held v p.lease ≡ weight v p.granted

-- All but one, which is in hand.
abbrev pub InHand : {Ctx : Type 0} → UpstreamLease → Pump Ctx → Type 0
InHand l p = (v : ℕ → ℕ) → weight_released v p.released + v l.created_at ≡ weight v p.granted

module _ {Ctx : Type 0} where
  pub destroy_lease-Custody : (p : Pump Ctx) → Custody p → Custody (destroy_lease p)
  unfolding destroy_lease
  destroy_lease-Custody p h v = ground (arith, h v)

  pub destroyed-Custody :
      (l : UpstreamLease) (p : Pump Ctx)
      → is_none p.lease ≡ true
      → InHand l p
      → Custody (record p { released = destroyed l ∷ p.released })
  destroyed-Custody l p d h v = ground (arith, h v)

  pub leased-Custody :
      (l : UpstreamLease) (p : Pump Ctx) → InHand l p → Custody (record p { lease = some l })
  leased-Custody l p h v = omega (arith, h v)

  pub granted-InHand :
      (l : UpstreamLease) (p : Pump Ctx)
      → is_none p.lease ≡ true
      → Custody p
      → InHand l (record p { granted = l ∷ p.granted })
  granted-InHand l p d h v = ground (arith, h v)

  -- The lease that is held, whatever becomes of its connection.
  pub replaced-Custody :
      (l l' : UpstreamLease) (p : Pump Ctx)
      → p.lease ≡ some l
      → l'.created_at ≡ l.created_at
      → Custody p
      → Custody (record p { lease = some l' })
  replaced-Custody l l' p e same h v = ground (arith, e, ap v same, h v)

  pub given_up-Custody :
      (r : Release) (l : UpstreamLease) (p : Pump Ctx)
      → p.lease ≡ some l
      → ((v : ℕ → ℕ) → weight_of v r ≡ v l.created_at)
      → Custody p
      → Custody (give_up r p)
  given_up-Custody r l p e same h v = ground (arith, e, same v, h v)
