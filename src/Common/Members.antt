-- ===== src/Common/Members.antt =====
-- What holds of every element of a list, and of what is found in it.
use mathlib.Core.Path.{◌≡◌, refl}
use mathlib.Core.Bool.{Bool, true}
use mathlib.Core.List.{List, [], ◌∷◌}
use mathlib.Core.Option.{some}
use mathlib.Core.Logic.{inl, inr}
use native.Mathlib.Omega.{arith}
use linyaps_rust.Common.Tests.{Bool-cases}
use linyaps_rust.Common.Lists.{any, retain, find}

abbrev pub Every {ℓ} : {A : Type ℓ} → (A → Type 0) → List A → Type 0
Every P [] = Unit {0}
Every P (x ∷ xs) = P x × Every P xs

-- Whatever holds of the element holds of one in the list.
abbrev pub Member {ℓ} : {A : Type ℓ} → List A → A → Type ℓ
Member {A} xs x = (q : A → Bool) → q x ≡ true → any q xs ≡ true

module _ {A : Type 0} where
  pub Every-map : (P Q : A → Type 0) (xs : List A) → ((x : A) → P x → Q x) → Every P xs → Every Q xs
  Every-map P Q [] f h = tt
  Every-map P Q (x ∷ xs) f h = (f x h.0, Every-map P Q xs f h.1)

  pub Every-retain :
      (P : A → Type 0) (q : A → Bool) (xs : List A)
      → Every P xs
      → Every (λ x. P x × (q x ≡ true)) (retain q xs)
  Every-retain P q [] h = tt
  Every-retain P q (x ∷ xs) h = elim (Bool-cases (q x)) [
    | inl e ↦ rw e ((h.0, e), Every-retain P q xs h.1)
    | inr e ↦ rw e (Every-retain P q xs h.1)
  ]

  pub Every-find :
      (P : A → Type 0) (q : A → Bool) (xs : List A) (x : A)
      → Every P xs
      → find q xs ≡ some x
      → P x × (q x ≡ true)
  Every-find P q [] x h e = absurd (ground arith)
  Every-find P q (y ∷ xs) x h e = elim (Bool-cases (q y)) [
    | inl hit ↦ let same : y ≡ x = ground arith in rw (← same) (h.0, hit)
    | inr miss ↦ Every-find P q xs x h.1 (rw miss at e)
  ]

  Member-cons : (y : A) (xs : List A) (x : A) → Member xs x → Member (y ∷ xs) x
  Member-cons y xs x h q e = ground (arith, h q e)

  Member-head : (x : A) (xs : List A) → Member (x ∷ xs) x
  Member-head x xs q e = rw e refl

  pub Every-Member : (xs : List A) → Every (Member xs) xs
  Every-Member [] = tt
  Every-Member (x ∷ xs) = (
    Member-head x xs,
    Every-map (Member xs) (Member (x ∷ xs)) xs (Member-cons x xs) (Every-Member xs),
  )

  pub find-any : (q : A → Bool) (xs : List A) → any q xs ≡ true → (x : A) × (find q xs ≡ some x)
  find-any q [] h = absurd (ground arith)
  find-any q (y ∷ xs) h = elim (Bool-cases (q y)) [
    | inl hit ↦ (y, rw hit refl)
    | inr miss ↦ let (x, e) = find-any q xs (rw miss at h) in (x, rw miss e)
  ]

module _ {A : Type 0} where
  pub Every-and :
      (P Q : A → Type 0) (xs : List A) → Every P xs → Every Q xs → Every (λ x. P x × Q x) xs
  Every-and P Q [] h k = tt
  Every-and P Q (x ∷ xs) h k = ((h.0, k.0), Every-and P Q xs h.1 k.1)
