-- ===== src/Base/Retrying.antt =====
-- tenacity's `Retrying(stop=stop_after_attempt(n), retry=…, reraise=True)`, which the repository
-- only calls: its documented behaviour as an interface, and what follows for any user of it.
-- The waits between attempts are not observed.
use raglogs.Base.Tests.{Bool-cases}
use Prim.Native.Nat.{ℕ, zero, suc, ◌≤◌}
use mathlib.Core.Path.{◌≡◌, refl}
use mathlib.Core.Logic.{◌⊎◌, inl, inr}
use mathlib.Core.Bool.{Bool, true, false}
use native.Mathlib.Omega.{arith}

pub data Outcome (E A : Type 0) : Type 0 where
  returned : A → Outcome E A
  raised : E → Outcome E A

-- `run n retry f` makes at most `n` attempts; `f i` is what the attempt number `i` does. It gives
-- the outcome and the number of attempts made.
pub record Retrying (E A : Type 0) : Type 0 where
  pub run : ℕ → (E → Bool) → (ℕ → Outcome E A) → Outcome E A × ℕ
  pub run-returned :
      (n : ℕ) (retry : E → Bool) (f : ℕ → Outcome E A) (a : A)
      → f 0 ≡ returned a
      → run (suc n) retry f ≡ (returned a, 1)
  pub run-final :
      (n : ℕ) (retry : E → Bool) (f : ℕ → Outcome E A) (e : E)
      → f 0 ≡ raised e
      → retry e ≡ false
      → run (suc n) retry f ≡ (raised e, 1)
  pub run-last :
      (retry : E → Bool) (f : ℕ → Outcome E A) (e : E)
      → f 0 ≡ raised e
      → run 1 retry f ≡ (raised e, 1)
  pub run-again :
      (n : ℕ) (retry : E → Bool) (f : ℕ → Outcome E A) (e : E)
      → f 0 ≡ raised e
      → retry e ≡ true
      → run (suc (suc n)) retry f
        ≡ ((run (suc n) retry (λ i. f (suc i))).0, suc (run (suc n) retry (λ i. f (suc i))).1)

module _ {E A : Type 0} where
  -- Why a sequence of attempts ended at the attempt number `k`.
  abbrev pub Ended : ℕ → (E → Bool) → (ℕ → Outcome E A) → ℕ → Type 0
  Ended n retry f k =
      ((a : A) × (f k ≡ returned a)) ⊎ ((e : E) × (f k ≡ raised e) × ((retry e ≡ false) ⊎ (k ≡ n)))

  pub record Ran (n : ℕ) (retry : E → Bool) (f : ℕ → Outcome E A) (r : Outcome E A × ℕ)
      : Type 0 where
    pub last : ℕ
    pub calls : r.1 ≡ suc last
    pub bound : last ≤ n
    pub outcome : r.0 ≡ f last
    pub ended : Ended n retry f last

  Outcome-cases : (o : Outcome E A) → ((a : A) × (o ≡ returned a)) ⊎ ((e : E) × (o ≡ raised e))
  Outcome-cases (returned a) = inl (a, refl)
  Outcome-cases (raised e) = inr (e, refl)

  Ran-suc :
      (n : ℕ) (retry : E → Bool) (f : ℕ → Outcome E A) (r : Outcome E A × ℕ)
      → Ran n retry (λ i. f (suc i)) r
      → Ran (suc n) retry f (r.0, suc r.1)
  Ran-suc n retry f r h = record {
    last = suc h.last;
    calls = omega (arith, h.calls);
    bound = omega (arith, h.bound);
    outcome = h.outcome;
    ended = elim h.ended [
      | inl x ↦ inl x
      | inr (e, p, inl q) ↦ inr (e, p, inl q)
      | inr (e, p, inr q) ↦ inr (e, p, inr (omega (arith, q)))
    ];
  }

  -- Up to `n + 1` attempts are made; the outcome is that of the last, and the last was a success, an
  -- error that is not to be retried, or the last one allowed.
  pub run-Ran :
      (r : Retrying E A) (n : ℕ) (retry : E → Bool) (f : ℕ → Outcome E A)
      → Ran n retry f (r.run (suc n) retry f)
  run-Ran r zero retry f = elim (Outcome-cases (f 0)) [
    | inl (a, e) ↦
        rw (r.run-returned 0 retry f a e) (record {
          last = 0;
          calls = refl;
          bound = omega arith;
          outcome = rw e;
          ended = inl (a, e);
        })
    | inr (x, e) ↦ rw (r.run-last retry f x e) (record {
      last = 0;
      calls = refl;
      bound = omega arith;
      outcome = rw e;
      ended = inr (x, e, inr refl);
    })
  ]
  run-Ran r (suc n) retry f = elim (Outcome-cases (f 0)) [
    | inl (a, e) ↦
        rw (r.run-returned (suc n) retry f a e) (record {
          last = 0;
          calls = refl;
          bound = omega arith;
          outcome = rw e;
          ended = inl (a, e);
        })
    | inr (x, e) ↦ elim (Bool-cases (retry x)) [
      | inl again ↦
          rw (r.run-again n retry f x e again)
            (Ran-suc n retry f _ (run-Ran r n retry (λ i. f (suc i))))
      | inr final ↦ rw (r.run-final (suc n) retry f x e final) (record {
        last = 0;
        calls = refl;
        bound = omega arith;
        outcome = rw e;
        ended = inr (x, e, inl final);
      })
    ]
  ]

  -- A concrete interpreter, which meets the interface.
  unfoldable pub attempts : ℕ → (E → Bool) → (ℕ → Outcome E A) → Outcome E A × ℕ
  attempts zero retry f = (f 0, 0)
  attempts (suc zero) retry f = (f 0, 1)
  attempts (suc (suc n)) retry f =
      let again = attempts (suc n) retry (λ i. f (suc i)) in
      elim (f 0) [
        | returned a ↦ (returned a, 1)
        | raised e ↦ elim (retry e) [ true ↦ (again.0, suc again.1) | false ↦ (raised e, 1) ]
      ]

  pub attempts-returned :
      (n : ℕ) (retry : E → Bool) (f : ℕ → Outcome E A) (a : A)
      → f 0 ≡ returned a
      → attempts (suc n) retry f ≡ (returned a, 1)
  unfolding attempts
  attempts-returned zero retry f a h = rw h
  attempts-returned (suc n) retry f a h = rw (h, attempts)

  pub attempts-final :
      (n : ℕ) (retry : E → Bool) (f : ℕ → Outcome E A) (e : E)
      → f 0 ≡ raised e
      → retry e ≡ false
      → attempts (suc n) retry f ≡ (raised e, 1)
  unfolding attempts
  attempts-final zero retry f e h p = rw h
  attempts-final (suc n) retry f e h p = rw (h, p, attempts)

  pub attempts-again :
      (n : ℕ) (retry : E → Bool) (f : ℕ → Outcome E A) (e : E)
      → f 0 ≡ raised e
      → retry e ≡ true
      → attempts (suc (suc n)) retry f ≡ (
        (attempts (suc n) retry (λ i. f (suc i))).0,
        suc (attempts (suc n) retry (λ i. f (suc i))).1,
      )
  unfolding attempts
  attempts-again n retry f e h p = rw (h, p, attempts)

  pub attempts-last :
      (retry : E → Bool) (f : ℕ → Outcome E A) (e : E)
      → f 0 ≡ raised e
      → attempts 1 retry f ≡ (raised e, 1)
  unfolding attempts
  attempts-last retry f e h = rw h

abbrev pub retrying : (E A : Type 0) → Retrying E A
retrying E A = record {
  run = attempts;
  run-returned = attempts-returned;
  run-final = attempts-final;
  run-last = attempts-last;
  run-again = attempts-again;
}
