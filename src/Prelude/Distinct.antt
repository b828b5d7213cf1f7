-- ===== src/Prelude/Distinct.antt =====
-- A column whose values are pairwise different, as a primary key or a `unique=True` column is, and
-- the table queries that keep it so.
use mathlib.Core.Path.{◌≡◌, refl, sym, ◌∙◌}
use mathlib.Core.Logic.{◌≢◌}
use mathlib.Core.Bool.{Bool, true, false}
use mathlib.Core.List.{List, [], ◌∷◌, ◌++◌, map}
use mathlib.Core.Option.{none}
use native.Mathlib.Omega.{arith}
use py_auth.Prelude.Tests.{if◌then◌else◌, Bool-cases}
use py_auth.Prelude.Lists.{All, All-select, find, select, update}
use mathlib.Core.Logic.{inl, inr}

module _ {ℓ κ} {A : Type ℓ} {K : Type κ} (key : A → K) where
  abbrev pub Distinct : List A → Type (ℓ ⊔ κ)
  Distinct [] = Unit
  Distinct (x ∷ xs) = All (λ y. key x ≢ key y) xs × Distinct xs

  All-snoc :
      (x y : A) (xs : List A)
      → All (λ z. key y ≢ key z) xs
      → key y ≢ key x
      → All (λ z. key y ≢ key z) (xs ++ x ∷ [])
  All-snoc x y [] h n = (n, tt)
  All-snoc x y (z ∷ xs) h n = (h.0, All-snoc x y xs h.1 n)

  pub Distinct-append :
      (x : A) (xs : List A) → Distinct xs → All (λ y. key y ≢ key x) xs → Distinct (xs ++ x ∷ [])
  Distinct-append x [] h n = (tt, tt)
  Distinct-append x (y ∷ xs) h n = (All-snoc x y xs h.0 n.0, Distinct-append x xs h.1 n.1)

  Distinct-if :
      (b : Bool) (xs ys : List A) → Distinct xs → Distinct ys → Distinct (if b then xs else ys)
  Distinct-if true xs ys h k = h
  Distinct-if false xs ys h k = k

  pub Distinct-select : (p : A → Bool) (xs : List A) → Distinct xs → Distinct (select p xs)
  unfolding select
  Distinct-select p [] h = h
  Distinct-select p (x ∷ xs) h =
      let rest = Distinct-select p xs h.1 in
      Distinct-if (p x) (x ∷ select p xs) (select p xs)
        (All-select (λ y. key x ≢ key y) p xs h.0, rest) rest

  module _ (p : A → Bool) (f : A → A) (same : (x : A) → key (f x) ≡ key x) where
    key-step : (x : A) → key (if p x then f x else x) ≡ key x
    key-step x = elim (Bool-cases (p x)) [ inl e ↦ rw e (same x) | inr e ↦ rw e refl ]

    All-update :
        (x : A) (xs : List A)
        → All (λ y. key x ≢ key y) xs
        → All (λ y. key (if p x then f x else x) ≢ key y) (update p f xs)
    unfolding update
    All-update x [] h = tt
    All-update x (y ∷ xs) h = (λ e. h.0 (sym (key-step x) ∙ e ∙ key-step y), All-update x xs h.1)

    pub Distinct-update : (xs : List A) → Distinct xs → Distinct (update p f xs)
    unfolding update
    Distinct-update [] h = h
    Distinct-update (x ∷ xs) h = (All-update x xs h.0, Distinct-update xs h.1)

-- No row passes the test of a query that found none.
pub All-find {ℓ} :
    {A : Type ℓ} (p : A → Bool) (xs : List A) → find p xs ≡ none → All (λ y. p y ≡ false) xs
unfolding find
All-find p [] h = tt
All-find p (x ∷ xs) h = elim (Bool-cases (p x)) [
  | inl e ↦ absurd (ground arith)
  | inr e ↦ (e, All-find p xs (ground arith))
]

pub All-unmap {ℓ κ ρ} :
    {A : Type ℓ} {B : Type κ} (P : B → Type ρ) (f : A → B) (xs : List A)
    → All P (map f xs)
    → All (λ x. P (f x)) xs
All-unmap P f [] h = tt
All-unmap P f (x ∷ xs) h = (h.0, All-unmap P f xs h.1)

pub All-mono {ℓ κ} :
    {A : Type ℓ} (P Q : A → Type κ) (xs : List A) → ((x : A) → P x → Q x) → All P xs → All Q xs
All-mono P Q [] f h = tt
All-mono P Q (x ∷ xs) f h = (f x h.0, All-mono P Q xs f h.1)
