-- ===== src/Chain/Steps.antt =====
-- What a success of a composed call says of its parts.
use mathlib.Core.Path.{subst}
use aurelith.Base.{◌≡◌, refl, ap, String, Result, ok, err, arith}
use aurelith.Chain.{Call, in_context, query_context, and_then}

pub query_context_ok :
    {A : Type 0} (context : String) (answer : Result A) (a : A)
    → query_context context answer ≡ ok a
    → answer ≡ ok a
query_context_ok context (ok b) a h = h
query_context_ok context (err e) a h = absurd (ground (arith, h))

module _ {C : Type 0} where
  pub in_context_ok :
      {A : Type 0} (context : String) (p : C × Result A) (t : C) (a : A)
      → in_context context p ≡ (t, ok a)
      → p ≡ (t, ok a)
  in_context_ok context (c, ok b) t a h = h
  in_context_ok context (c, err e) t a h = absurd (ground (arith, ap (λ q. q.1) h))

  pub and_then_ok :
      {A B : Type 0} (p : C × Result A) (rest : A → Call C B) (t : C) (b : B)
      → and_then p rest ≡ (t, ok b)
      → (c : C) × (a : A) × (p ≡ (c, ok a)) × (rest a c ≡ (t, ok b))
  and_then_ok (c, ok a) rest t b h = (c, a, refl, h)
  and_then_ok (c, err e) rest t b h = absurd (ground (arith, ap (λ q. q.1) h))

-- What a call ensures of the state and the value, if it succeeds.
abbrev pub Ensures {ℓ} : {C A : Type 0} → (C → A → Type ℓ) → C × Result A → Type ℓ
Ensures Q (c, ok a) = Q c a
Ensures Q (c, err e) = Unit

module _ {ℓ} {C : Type 0} where
  pub Ensures-ok :
      {A : Type 0} (Q : C → A → Type ℓ) (p : C × Result A) (t : C) (a : A)
      → Ensures Q p
      → p ≡ (t, ok a)
      → Q t a
  Ensures-ok Q p t a ensured h = subst (Ensures Q) h ensured

module _ {ℓ κ} {C : Type 0} where
  pub and_then-Ensures :
      {A B : Type 0} (P : C → A → Type ℓ) (Q : C → B → Type κ) (p : C × Result A)
      (rest : A → Call C B)
      → Ensures P p
      → ((c : C) (a : A) → P c a → Ensures Q (rest a c))
      → Ensures Q (and_then p rest)
  and_then-Ensures P Q (c, ok a) rest first next = next c a first
  and_then-Ensures P Q (c, err e) rest first next = tt

pub Ensures-map {ℓ κ} :
    {C A : Type 0} (P : C → A → Type ℓ) (Q : C → A → Type κ) (p : C × Result A)
    → ((c : C) (a : A) → P c a → Q c a)
    → Ensures P p
    → Ensures Q p
Ensures-map P Q (c, ok a) f h = f c a h
Ensures-map P Q (c, err e) f h = tt

-- A call of which nothing is known.
pub Ensures-nothing : {C A : Type 0} (p : C × Result A) → Ensures (λ c a. Unit {0}) p
Ensures-nothing (c, ok a) = tt
Ensures-nothing (c, err e) = tt

module _ {ℓ} {C : Type 0} where
  -- What the rest of a function ensures after any call.
  pub and_then-last :
      {A B : Type 0} (Q : C → B → Type ℓ) (p : C × Result A) (rest : A → Call C B)
      → ((c : C) (a : A) → Ensures Q (rest a c))
      → Ensures Q (and_then p rest)
  and_then-last Q (c, ok a) rest next = next c a
  and_then-last Q (c, err e) rest next = tt
