-- ===== src/Cache/Retired.antt =====
-- Identities that stay retired, whatever happens next to the caches of src/simplecc/lsp/client.rs.
use simplecc.Base.{
  ℕ, String, ◌≤◌, ◌≡◌, refl, ap, false, List, [], ◌∷◌, ◌++◌, arith, string_key, nat_key, eq_iff,
}
use simplecc.Cache.{IdentityCache, begin, matches, replace, invalidate, invalidate_uri}
use simplecc.Cache.History.{Event, requested, replied, document_edge, refreshed, step, advance}

module _ {A : Type 0} where
  generation-le-step : (c : IdentityCache A) (e : Event A) → c.generation ≤ (step c e).generation
  unfolding step begin replace invalidate invalidate_uri
  generation-le-step c (requested k v) = ground arith
  generation-le-step c (replied k v ys) = ground arith
  generation-le-step c (document_edge v) = ground arith
  generation-le-step c refreshed = omega arith

  -- A step cannot bring back an identity that is at or below the watermark and does not match.
  step_retired :
      (c : IdentityCache A) (g : ℕ) (u : String) (e : Event A)
      → g ≤ c.generation
      → matches c g u ≡ false
      → matches (step c e) g u ≡ false
  unfolding step begin replace invalidate invalidate_uri matches
  step_retired c g u (requested k v) old gone = ground arith
  step_retired c g u (replied k v ys) old gone = ground arith
  step_retired c g u (document_edge v) old gone = ground (arith, eq_iff "" u, eq_iff u "")
  step_retired c g u refreshed old gone = ground (arith, eq_iff "" u, eq_iff u "")

  generation-le-advance :
      (c : IdentityCache A) (k : List (Event A)) → c.generation ≤ (advance c k).generation
  generation-le-advance c [] = omega arith
  generation-le-advance c (e ∷ k) =
      omega (arith, generation-le-step (advance c k) e, generation-le-advance c k)

  -- Once an identity that was asked for stops matching, no later history makes it match again.
  pub retired_forever :
      (c : IdentityCache A) (g : ℕ) (u : String) (k : List (Event A))
      → g ≤ c.generation
      → matches c g u ≡ false
      → matches (advance c k) g u ≡ false
  retired_forever c g u [] old gone = gone
  retired_forever c g u (e ∷ k) old gone =
      step_retired (advance c k) g u e (omega (arith, generation-le-advance c k))
        (retired_forever c g u k old gone)

  pub advance-append :
      (c : IdentityCache A) (k h : List (Event A)) → advance c (k ++ h) ≡ advance (advance c h) k
  advance-append c [] h = refl
  advance-append c (e ∷ k) h = ap (λ d. step d e) (advance-append c k h)

  -- An event that closes whatever is open for the document.
  abbrev pub Closes : String → Event A → Type 0
  Closes u (document_edge v) = v ≡ u
  Closes u refreshed = Unit {0}
  Closes u (requested _ _) = ⊥
  Closes u (replied _ _ _) = ⊥

  step-Closes :
      (c : IdentityCache A) (g : ℕ) (u : String) (e : Event A)
      → Closes u e
      → matches (step c e) g u ≡ false
  unfolding step matches invalidate_uri invalidate
  step-Closes c g u (document_edge v) h =
      ground (arith, eq_iff c.uri u, eq_iff c.uri v, eq_iff "" u, eq_iff u "")
  step-Closes c g u refreshed h = ground (arith, eq_iff "" u, eq_iff u "")
  step-Closes c g u (requested _ _) h = absurd h
  step-Closes c g u (replied _ _ _) h = absurd h

  -- A closing event anywhere in what follows leaves the identity retired.
  pub closed_forever :
      (c : IdentityCache A) (g : ℕ) (u : String) (newer : List (Event A)) (e : Event A)
      (older : List (Event A))
      → g ≤ c.generation
      → Closes u e
      → matches (advance c (newer ++ e ∷ older)) g u ≡ false
  closed_forever c g u newer e older old h = rw (advance-append c newer (e ∷ older)) (
      retired_forever (advance c (e ∷ older)) g u newer
        (omega (arith, generation-le-advance c (e ∷ older)))
        (step-Closes (advance c older) g u e h))
