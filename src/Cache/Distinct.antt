-- ===== src/Cache/Distinct.antt =====
-- Lists without two related elements, under the operations of a vector.
use linyaps_rust.Common.{
  ℕ, zero, suc, ◌≡◌, refl, ap, some, List, [], ◌∷◌, ◌++◌, Bool, true, false, any, retain, get_elem?,
  set, remove_at, insert_at, arith, inl, inr, Bool-cases,
}

module _ {A : Type 0} where
  any-append :
      (p : A → Bool) (xs : List A) (x : A)
      → any p xs ≡ false
      → p x ≡ false
      → any p (xs ++ x ∷ []) ≡ false
  any-append p [] x h k = ground arith
  any-append p (y ∷ xs) x h k = ground (arith, any-append p xs x)

  any-retain : (p q : A → Bool) (xs : List A) → any p xs ≡ false → any p (retain q xs) ≡ false
  any-retain p q [] h = refl
  any-retain p q (y ∷ xs) h = ground (arith, any-retain p q xs)

  any-remove_at :
      (p : A → Bool) (xs : List A) (i : ℕ) → any p xs ≡ false → any p (remove_at xs i) ≡ false
  any-remove_at p [] i h = refl
  any-remove_at p (y ∷ xs) zero h = ground arith
  any-remove_at p (y ∷ xs) (suc i) h = ground (arith, any-remove_at p xs i)

  any-set :
      (p : A → Bool) (xs : List A) (i : ℕ) (x : A)
      → p x ≡ false
      → any p xs ≡ false
      → any p (set xs i x) ≡ false
  any-set p [] i x k h = refl
  any-set p (y ∷ xs) zero x k h = ground arith
  any-set p (y ∷ xs) (suc i) x k h = ground (arith, any-set p xs i x)

  pub any-none_retained :
      (p q : A → Bool) (xs : List A)
      → ((x : A) → q x ≡ true → p x ≡ false)
      → any p (retain q xs) ≡ false
  any-none_retained p q [] e = refl
  any-none_retained p q (x ∷ xs) e = elim (Bool-cases (q x)) [
    | inl h ↦ rw (h, e x h) (any-none_retained p q xs e)
    | inr h ↦ rw h (any-none_retained p q xs e)
  ]

  any-get :
      (p : A → Bool) (xs : List A) (i : ℕ) (x : A)
      → any p xs ≡ false
      → get_elem? xs i ≡ some x
      → p x ≡ false
  any-get p [] i x h g = absurd (ground arith)
  any-get p (y ∷ xs) zero x h g = let e : y ≡ x = ground arith in rw (← e) (ground arith)
  any-get p (y ∷ xs) (suc i) x h g = any-get p xs i x (ground arith) g

  pub insert_at-remove_at :
      (xs : List A) (i : ℕ) (x : A) → get_elem? xs i ≡ some x → insert_at (remove_at xs i) i x ≡ xs
  insert_at-remove_at [] i x h = absurd (ground arith)
  insert_at-remove_at (y ∷ xs) zero x h = ground arith
  insert_at-remove_at (y ∷ xs) (suc i) x h = ap (λ l. y ∷ l) (insert_at-remove_at xs i x h)

  pub set-set :
      (xs : List A) (i : ℕ) (x y : A) → get_elem? xs i ≡ some x → set (set xs i y) i x ≡ xs
  set-set [] i x y h = refl
  set-set (z ∷ xs) zero x y h = ground arith
  set-set (z ∷ xs) (suc i) x y h = ap (λ l. z ∷ l) (set-set xs i x y h)

module _ {A : Type 0} (r : A → A → Bool) where
  abbrev pub Distinct : List A → Type 0
  Distinct [] = Unit {0}
  Distinct (x ∷ xs) = (any (r x) xs ≡ false) × Distinct xs

  pub Distinct-push :
      (xs : List A) (x : A) → Distinct xs → any (λ y. r y x) xs ≡ false → Distinct (xs ++ x ∷ [])
  Distinct-push [] x d h = (refl, tt)
  Distinct-push (y ∷ xs) x d h =
      (any-append (r y) xs x d.0 (ground arith), Distinct-push xs x d.1 (ground arith))

  pub Distinct-retain : (q : A → Bool) (xs : List A) → Distinct xs → Distinct (retain q xs)
  Distinct-retain q [] d = tt
  Distinct-retain q (x ∷ xs) d = elim (Bool-cases (q x)) [
    | inl h ↦ rw h (any-retain (r x) q xs d.0, Distinct-retain q xs d.1)
    | inr h ↦ rw h (Distinct-retain q xs d.1)
  ]

  pub Distinct-remove_at : (xs : List A) (i : ℕ) → Distinct xs → Distinct (remove_at xs i)
  Distinct-remove_at [] i d = tt
  Distinct-remove_at (x ∷ xs) zero d = d.1
  Distinct-remove_at (x ∷ xs) (suc i) d =
      (any-remove_at (r x) xs i d.0, Distinct-remove_at xs i d.1)

  -- A change that the relation does not see.
  pub Distinct-set :
      (xs : List A) (i : ℕ) (x x' : A)
      → get_elem? xs i ≡ some x
      → ((y : A) → r y x' ≡ r y x)
      → ((y : A) → r x' y ≡ r x y)
      → Distinct xs
      → Distinct (set xs i x')
  Distinct-set [] i x x' g e f d = tt
  Distinct-set (y ∷ xs) zero x x' g e f d = (any-same xs (ground arith), d.1)
    where
      any-same : (zs : List A) → any (r x) zs ≡ false → any (r x') zs ≡ false
      any-same [] h = refl
      any-same (z ∷ zs) h = rw (f z) (ground (arith, any-same zs))
  Distinct-set (y ∷ xs) (suc i) x x' g e f d = (
    any-set (r y) xs i x' (rw (e y) (any-get (r y) xs i x d.0 g)) d.0,
    Distinct-set xs i x x' g e f d.1,
  )
