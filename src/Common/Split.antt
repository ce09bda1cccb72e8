-- ===== src/Common/Split.antt =====
-- `split` and `join` at one byte are inverse where they should be.
use mathlib.Core.Path.{◌≡◌, refl, ap, ◌∙◌}
use mathlib.Core.Bool.{false}
use mathlib.Core.List.{List, [], ◌∷◌, ◌++◌}
use mathlib.Core.Logic.{inl, inr}
use Prim.Native.Nat.{ℕ}
use native.Mathlib.Omega.{arith}
use linyaps_rust.Common.Tests.{◌==◌, Bool-cases}
use linyaps_rust.Common.Strings.{Text, split, split_once, first_longer, join, cons_first}
use mathlib.Core.Option.{Option, none, some}

-- A text without the separator.
abbrev pub Lacks : ℕ → Text → Type 0
Lacks sep [] = Unit {0}
Lacks sep (c ∷ s) = ((c == sep) ≡ false) × Lacks sep s

abbrev pub AllLack : ℕ → List Text → Type 0
AllLack sep [] = Unit {0}
AllLack sep (p ∷ ps) = Lacks sep p × AllLack sep ps

pub split-lacking : (sep : ℕ) (s : Text) → Lacks sep s → split sep s ≡ s ∷ []
unfolding split
split-lacking sep [] h = refl
split-lacking sep (c ∷ s) h = rw (h.0, split-lacking sep s h.1, cons_first) refl

pub split-append : (sep : ℕ) (s t : Text) → Lacks sep s → split sep (s ++ sep ∷ t) ≡ s ∷ split sep t
unfolding split
split-append sep [] t h = ground arith
split-append sep (c ∷ s) t h = rw (h.0, split-append sep s t h.1, cons_first) refl

-- The parts that were joined come back.
pub split-join :
    (sep : ℕ) (p : Text) (ps : List Text)
    → AllLack sep (p ∷ ps)
    → split sep (join (sep ∷ []) (p ∷ ps)) ≡ p ∷ ps
unfolding join
split-join sep p [] h = split-lacking sep p h.0
split-join sep p (q ∷ ps) h =
    split-append sep p (join (sep ∷ []) (q ∷ ps)) h.0 ∙ ap (λ l. p ∷ l) (split-join sep q ps h.1)

join-cons_first :
    (sep : Text) (c : ℕ) (ps : List Text) → join sep (cons_first c ps) ≡ c ∷ join sep ps
unfolding join cons_first
join-cons_first sep c [] = refl
join-cons_first sep c (p ∷ []) = refl
join-cons_first sep c (p ∷ q ∷ ps) = refl

pub split-cons : (sep : ℕ) (s : Text) → (p : Text) × (ps : List Text) × (split sep s ≡ p ∷ ps)
unfolding split cons_first
split-cons sep [] = ([], [], refl)
split-cons sep (c ∷ s) =
    let (p, ps, e) = split-cons sep s in
    elim (Bool-cases (c == sep)) [
      | inl h ↦ ([], p ∷ ps, rw (h, e) refl)
      | inr h ↦ (c ∷ p, ps, rw (h, e) refl)
    ]

-- Joining the parts gives the text back.
pub join-split : (sep : ℕ) (s : Text) → join (sep ∷ []) (split sep s) ≡ s
unfolding split join
join-split sep [] = refl
join-split sep (c ∷ s) =
    let (p, ps, e) = split-cons sep s in
    let ih = join-split sep s in
    elim (Bool-cases (c == sep)) [
      | inl h ↦ rw (h, e) (ground (arith, rw e at ih))
      | inr h ↦ rw h (join-cons_first (sep ∷ []) c (split sep s) ∙ ap (λ t. c ∷ t) ih)
    ]

-- `split_once` finds the first separator.
pub split_once-append :
    (sep : ℕ) (s t : Text) → Lacks sep s → split_once sep (s ++ sep ∷ t) ≡ some (s, t)
unfolding split_once
split_once-append sep [] t h = ground arith
split_once-append sep (c ∷ s) t h = rw (h.0, split_once-append sep s t h.1) refl

pub split_once-some :
    (sep : ℕ) (raw s t : Text) → split_once sep raw ≡ some (s, t) → s ++ sep ∷ t ≡ raw
unfolding split_once
split_once-some sep [] s t h = absurd (ground arith)
split_once-some sep (c ∷ raw) s t h = elim (Bool-cases (c == sep)) [
  | inl hit ↦ ground arith
  | inr miss ↦ later (split_once sep raw) (split_once-some sep raw) (ground arith)
]
  where
    later :
        (o : Option (Text × Text))
        → ((u v : Text) → o ≡ some (u, v) → u ++ sep ∷ v ≡ raw)
        → first_longer c o ≡ some (s, t)
        → s ++ sep ∷ t ≡ c ∷ raw
    later none ih k = absurd (ground arith)
    later (some (a, b)) ih k =
        let e : c ∷ a ≡ s = ground arith in
        let e' : b ≡ t = ground arith in rw (← e, ← e') (ap (λ x. c ∷ x) (ih a b refl))

cons_first-AllLack :
    (sep c : ℕ) (ps : List Text)
    → (c == sep) ≡ false
    → AllLack sep ps
    → AllLack sep (cons_first c ps)
unfolding cons_first
cons_first-AllLack sep c [] h a = ((h, tt), tt)
cons_first-AllLack sep c (p ∷ ps) h a = ((h, a.0), a.1)

pub split-AllLack : (sep : ℕ) (s : Text) → AllLack sep (split sep s)
unfolding split
split-AllLack sep [] = (tt, tt)
split-AllLack sep (c ∷ s) = elim (Bool-cases (c == sep)) [
  | inl h ↦ rw h (tt, split-AllLack sep s)
  | inr h ↦ rw h (cons_first-AllLack sep c (split sep s) h (split-AllLack sep s))
]
