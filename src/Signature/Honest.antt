-- ===== src/Signature/Honest.antt =====
-- internal/signature: a property of the valid results only, through the forms that results take.
use hooklens.Base.{◌≡◌, refl, Bool, true, false, Option, none, Bytes, if◌then◌else◌}
use hooklens.Signature.{Problem, Result, unchecked}
use hooklens.Signature.Providers.{concluded}

-- Valid results have a property.
pub record Honest (P : Result → Type 0) (res : Result) : Type 0 where
  pub vouched : res.valid ≡ true → P res

module _ {P : Result → Type 0} where
  pub Honest-if :
      (test : Bool) (x y : Result)
      → (test ≡ true → Honest P x)
      → Honest P y
      → Honest P (if test then x else y)
  Honest-if true x y p q = p refl
  Honest-if false x y p q = q

  pub concluded-Honest :
      (test : Bool) (kept : Option Problem) (otherwise : Problem) (res : Result)
      → (test ≡ true → P (record res { valid = true; problem = kept }))
      → Honest P (concluded test kept otherwise res)
  unfolding concluded
  concluded-Honest true kept otherwise res h = record { vouched = λ _. h refl }
  concluded-Honest false kept otherwise res h = record { vouched = λ v. absurd (cc v) }

  pub unchecked-Honest : (name : Bytes) (why : Option Problem) → Honest P (unchecked name why)
  unchecked-Honest name why = record { vouched = λ v. absurd (cc v) }

  pub near-Honest :
      (far : Bool) (res : Result) (why : Option Problem)
      → (far ≡ false → P (record res { valid = true; problem = none }))
      → Honest P (
          if far
          then record res { valid = false; problem = why }
          else record res { valid = true; problem = none })
  near-Honest true res why h = record { vouched = λ v. absurd (cc v) }
  near-Honest false res why h = record { vouched = λ _. h refl }
