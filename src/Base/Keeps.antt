-- ===== src/Base/Keeps.antt =====
-- Invariants of calls that may raise, one rule for each way to build a call. What holds before
-- holds after a call that returns; a call that raises leaves nothing to speak of.
use web3_real_estate.Base.Tests.{if◌then◌else◌}
use web3_real_estate.Base.Outcome.{
  Result, ok, err, Action, pure, raise, ◌>>=◌, modify, run, or_raise,
}
use mathlib.Core.Bool.{Bool, true, false}
use mathlib.Core.Option.{Option, none, some}

-- The invariant at the end of a call.
abbrev pub After : {E S A : Type 0} → (S → Type 0) → Result E (A × S) → Type 0
After P (ok (_, s)) = P s
After P (err _) = Unit

pub record Keeps {E S A : Type 0} (P : S → Type 0) (m : Action E S A) : Type 0 where
  pub at : (s : S) → P s → After P (m s)

module _ {E S A : Type 0} {P : S → Type 0} where
  pub Keeps-pure : (a : A) → Keeps P (pure {E = E} a)
  Keeps-pure a = record { at = λ s h. h }

  pub Keeps-run : (f : S → A × S) → ((s : S) → P s → P (f s).1) → Keeps P (run {E = E} f)
  Keeps-run f k = record { at = k }

  pub Keeps-or_raise : (o : Option A) (e : E) → Keeps P (or_raise o e)
  Keeps-or_raise none e = record { at = λ s h. tt }
  Keeps-or_raise (some a) e = record { at = λ s h. h }

module _ {E S : Type 0} {P : S → Type 0} where
  pub Keeps-modify : (f : S → S) → ((s : S) → P s → P (f s)) → Keeps P (modify {E = E} f)
  Keeps-modify f k = record { at = k }

module _ {E S A B : Type 0} {P : S → Type 0} where
  bind-After :
      (r : Result E (A × S)) (f : A → Action E S B)
      → After P r
      → ((a : A) → Keeps P (f a))
      → After P (elim r as (λ _. Result E (B × S)) [ ok (a, s') ↦ f a s' | err e ↦ err e ])
  bind-After (ok (a, s)) f h k = (k a).at s h
  bind-After (err e) f h k = tt

  pub Keeps-bind :
      (m : Action E S A) (f : A → Action E S B)
      → Keeps P m
      → ((a : A) → Keeps P (f a))
      → Keeps P (m >>= f)
  Keeps-bind m f h k = record { at = λ s p. bind-After (m s) f (h.at s p) k }

module _ {E S A : Type 0} {P : S → Type 0} where
  pub Keeps-if :
      (b : Bool) (m n : Action E S A) → Keeps P m → Keeps P n → Keeps P (if b then m else n)
  Keeps-if true m n h k = h
  Keeps-if false m n h k = k

  pub Keeps-raise : (e : E) → Keeps P (raise {A = A} e)
  Keeps-raise e = record { at = λ s h. tt }

pub ruleset keeps_rules =
    (Keeps-pure, Keeps-run, Keeps-or_raise, Keeps-modify, Keeps-bind, Keeps-if, Keeps-raise)

module _ {E S A B : Type 0} (P : S → Type 0) where
  -- A match on what a query found.
  pub After-option :
      (o : Option B) (x : Result E (A × S)) (f : B → Result E (A × S))
      → After P x
      → ((b : B) → After P (f b))
      → After P (elim o as (λ _. Result E (A × S)) [ none ↦ x | some b ↦ f b ])
  After-option none x f h k = h
  After-option (some b) x f h k = k b
