-- ===== src/Base/Ends.antt =====
-- An invariant at the end of a call that answers and commits, one rule for each way to write a call.
use web3_real_estate.Base.Tests.{if◌then◌else◌}
use web3_real_estate.Base.Outcome.{Result, ok, err}
use mathlib.Core.Bool.{Bool, true, false}
use mathlib.Core.Option.{Option, none, some}

pub record Ends {A S : Type 0} (P : S → Type 0) (x : A × S) : Type 0 where
  pub at : P x.1

module _ {A S : Type 0} {P : S → Type 0} where
  pub Ends-pair : (a : A) (s : S) → P s → Ends P (a, s)
  Ends-pair a s h = record { at = h }

  pub Ends-if : (b : Bool) (x y : A × S) → Ends P x → Ends P y → Ends P (if b then x else y)
  Ends-if true x y h k = h
  Ends-if false x y h k = k

  pub Ends-option :
      {B : Type 0} (o : Option B) (x : A × S) (f : B → A × S)
      → Ends P x
      → ((b : B) → Ends P (f b))
      → Ends P (elim o as (λ _. A × S) [ none ↦ x | some b ↦ f b ])
  Ends-option none x f h k = h
  Ends-option (some b) x f h k = k b

  pub Ends-result :
      {E B : Type 0} (r : Result E B) (g : E → A × S) (f : B → A × S)
      → ((e : E) → Ends P (g e))
      → ((b : B) → Ends P (f b))
      → Ends P (elim r as (λ _. A × S) [ ok b ↦ f b | err e ↦ g e ])
  Ends-result (ok b) g f h k = k b
  Ends-result (err e) g f h k = h e

  pub Ends-bool :
      (b : Bool) (x y : A × S)
      → Ends P x
      → Ends P y
      → Ends P (elim b as (λ _. A × S) [ true ↦ x | false ↦ y ])
  Ends-bool true x y h k = h
  Ends-bool false x y h k = k

pub ruleset ends_rules = (Ends-pair, Ends-if, Ends-option, Ends-result, Ends-bool)
