-- ===== src/Prelude/Equality.antt =====
-- Python's `==` on pairs and on lists.
use mathlib.Core.Path.{◌≡◌, refl}
use mathlib.Core.Logic.{◌↔◌}
use mathlib.Core.Bool.{Bool, true, false, ◌&&◌}
use mathlib.Core.List.{List, [], ◌∷◌}
use native.Mathlib.Omega.{arith}
use civicpatch_tools.Prelude.Tests.{HasEq, ◌==◌}

module _ {A B : Type 0} ⦃e : HasEq A⦄ ⦃f : HasEq B⦄ where
  pub prod_eqb_iff : (a b : A × B) → ((a.0 == b.0 && a.1 == b.1) ≡ true) ↔ (a ≡ b)
  prod_eqb_iff a b = ground (arith, e.eqb_iff a.0 b.0, f.eqb_iff a.1 b.1)

  instance abbrev pub prod_eq : HasEq (A × B)
  prod_eq = record { eqb = λ a b. a.0 == b.0 && a.1 == b.1; eqb_iff = prod_eqb_iff }

module _ {A : Type 0} ⦃e : HasEq A⦄ where
  abbrev pub list_eqb : List A → List A → Bool
  list_eqb [] [] = true
  list_eqb (a ∷ as') (b ∷ bs) = a == b && list_eqb as' bs
  list_eqb [] (b ∷ bs) = false
  list_eqb (a ∷ as') [] = false

  pub list_eqb_iff : (a b : List A) → (list_eqb a b ≡ true) ↔ (a ≡ b)
  list_eqb_iff [] [] = (λ _. refl, λ _. refl)
  list_eqb_iff (a ∷ as') (b ∷ bs) = ground (arith, e.eqb_iff a b, list_eqb_iff as' bs)
  list_eqb_iff [] (b ∷ bs) = (λ h. cc, λ h. cc)
  list_eqb_iff (a ∷ as') [] = (λ h. cc, λ h. cc)

  instance abbrev pub list_eq : HasEq (List A)
  list_eq = record { eqb = list_eqb; eqb_iff = list_eqb_iff }
