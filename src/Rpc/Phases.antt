-- ===== src/Rpc/Phases.antt =====
-- A call of src/simplecc/lsp/client.rs runs on only from the phase that it is in: rules for proofs about a step.
use simplecc.Base.{
  ℕ, String, ◌≡◌, refl, sym, subst, ◌⊎◌, inl, inr, Option, none, some, List, [], ◌∷◌,
}
use simplecc.Rpc.{Channel, Outcome, Phase, registered, waiting, dropped, done, Task, Client}
use simplecc.Rpc.Step.{Event, step, run, if_registered, if_waiting}

pub Phase-cases :
    (p : Phase)
    → (p ≡ registered) ⊎ ((p ≡ waiting) ⊎ ((p ≡ dropped) ⊎ ((o : Outcome) × (p ≡ done o))))
Phase-cases registered = inl refl
Phase-cases waiting = inr (inl refl)
Phase-cases dropped = inr (inr (inl refl))
Phase-cases (done o) = inr (inr (inr (o, refl)))

-- A step of a call is taken only from its phase.
pub if_registered-keeps :
    (P : Client → Type 0) (t : Option Task) (f : Option (String × ℕ) → Client) (s : Client)
    → ((u : Task) → t ≡ some u → u.phase ≡ registered → P (f u.key))
    → P s
    → P (if_registered t f s)
if_registered-keeps P none f s h p = p
if_registered-keeps P (some t) f s h p = elim (Phase-cases t.phase) [
  | inl is ↦
      subst (λ ph. P (elim ph [ registered ↦ f t.key | waiting ↦ s | dropped ↦ s | done o ↦ s ]))
        (sym is) (h t refl is)
  | inr (inl is) ↦
      subst (λ ph. P (elim ph [ registered ↦ f t.key | waiting ↦ s | dropped ↦ s | done o ↦ s ]))
        (sym is) p
  | inr (inr (inl is)) ↦
      subst (λ ph. P (elim ph [ registered ↦ f t.key | waiting ↦ s | dropped ↦ s | done o ↦ s ]))
        (sym is) p
  | inr (inr (inr (o, is))) ↦
      subst (λ ph. P (elim ph [ registered ↦ f t.key | waiting ↦ s | dropped ↦ s | done o ↦ s ]))
        (sym is) p
]

pub if_waiting-keeps :
    (P : Client → Type 0) (t : Option Task) (f : Channel → Option (String × ℕ) → Client)
    (s : Client)
    → ((u : Task) → t ≡ some u → u.phase ≡ waiting → P (f u.channel u.key))
    → P s
    → P (if_waiting t f s)
if_waiting-keeps P none f s h p = p
if_waiting-keeps P (some t) f s h p = elim (Phase-cases t.phase) [
  | inl is ↦
      subst
        (λ ph.
          P (elim ph [ registered ↦ s | waiting ↦ f t.channel t.key | dropped ↦ s | done o ↦ s ]))
        (sym is) p
  | inr (inl is) ↦
      subst
        (λ ph.
          P (elim ph [ registered ↦ s | waiting ↦ f t.channel t.key | dropped ↦ s | done o ↦ s ]))
        (sym is) (h t refl is)
  | inr (inr (inl is)) ↦
      subst
        (λ ph.
          P (elim ph [ registered ↦ s | waiting ↦ f t.channel t.key | dropped ↦ s | done o ↦ s ]))
        (sym is) p
  | inr (inr (inr (o, is))) ↦
      subst
        (λ ph.
          P (elim ph [ registered ↦ s | waiting ↦ f t.channel t.key | dropped ↦ s | done o ↦ s ]))
        (sym is) p
]

pub run-keeps :
    (P : Client → Type 0)
    → ((s : Client) (e : Event) → P s → P (step s e))
    → (s : Client) (es : List Event) → P s
    → P (run s es)
run-keeps P one s [] p = p
run-keeps P one s (e ∷ es) p = run-keeps P one (step s e) es (one s e p)
