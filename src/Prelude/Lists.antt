-- ===== src/Prelude/Lists.antt =====
-- Lists measured by native numbers, the queries of a table (first match, replace, delete), and
-- the predicate that holds at every element.
use Prim.Native.Nat.{ℕ, zero, suc, ◌+◌, ◌-◌, ◌≤◌, min}
use mathlib.Core.Path.{◌≡◌, refl, ap}
use mathlib.Core.Bool.{Bool, true, false, ◌||◌}
use mathlib.Core.List.{List, [], ◌∷◌, ◌++◌}
use mathlib.Core.Option.{Option, none, some}
use native.Mathlib.Omega.{arith}
use py_auth.Prelude.Tests.{if◌then◌else◌, ◌is◌}
use Prim.Native.String.{String}

module _ {ℓ} {A : Type ℓ} where
  abbrev pub length : List A → ℕ
  length [] = 0
  length (x ∷ xs) = suc (length xs)

  abbrev pub take : ℕ → List A → List A
  take zero xs = []
  take (suc n) [] = []
  take (suc n) (x ∷ xs) = x ∷ take n xs

  abbrev pub drop : ℕ → List A → List A
  drop zero xs = xs
  drop (suc n) [] = []
  drop (suc n) (x ∷ xs) = drop n xs

  pub length-append : (xs ys : List A) → length (xs ++ ys) ≡ length xs + length ys
  length-append [] ys = omega arith
  length-append (x ∷ xs) ys = omega (arith, length-append xs ys)

  pub take-append-drop : (n : ℕ) (xs : List A) → take n xs ++ drop n xs ≡ xs
  take-append-drop zero xs = refl
  take-append-drop (suc n) [] = refl
  take-append-drop (suc n) (x ∷ xs) = rw (take-append-drop n xs) refl

  pub length-take : (n : ℕ) (xs : List A) → length (take n xs) ≡ min n (length xs)
  length-take zero xs = omega arith
  length-take (suc n) [] = omega arith
  length-take (suc n) (x ∷ xs) = omega (arith, length-take n xs)

  pub length-drop : (n : ℕ) (xs : List A) → length (drop n xs) ≡ length xs - n
  length-drop zero xs = omega arith
  length-drop (suc n) [] = omega arith
  length-drop (suc n) (x ∷ xs) = omega (arith, length-drop n xs)

  -- `query.filter(p).first()`
  unfoldable pub find : (A → Bool) → List A → Option A
  find p [] = none
  find p (x ∷ xs) = if p x then some x else find p xs

  pub find-holds : (p : A → Bool) (xs : List A) (x : A) → find p xs ≡ some x → p x ≡ true
  unfolding find
  find-holds p [] x h = ground arith
  find-holds p (y ∷ xs) x h = ground (arith, find-holds p xs x)

  pub find-append_none :
      (p : A → Bool) (xs : List A) (x : A)
      → find p xs ≡ none
      → find p (xs ++ x ∷ []) ≡ (if p x then some x else none)
  unfolding find
  find-append_none p [] x h = refl
  find-append_none p (y ∷ xs) x h = ground (arith, find-append_none p xs x)

  -- the rows that a query selects
  unfoldable pub select : (A → Bool) → List A → List A
  select p [] = []
  select p (x ∷ xs) = let rest = select p xs in if p x then x ∷ rest else rest

  -- `UPDATE ... WHERE p`
  unfoldable pub update : (A → Bool) → (A → A) → List A → List A
  update p f [] = []
  update p f (x ∷ xs) = (if p x then f x else x) ∷ update p f xs

  -- every element
  abbrev pub All {κ} : (A → Type κ) → List A → Type κ
  All P [] = Unit
  All P (x ∷ xs) = P x × All P xs

  pub All-append {κ} : (P : A → Type κ) (xs ys : List A) → All P xs → All P ys → All P (xs ++ ys)
  All-append P [] ys hx hy = hy
  All-append P (x ∷ xs) ys hx hy = (hx.0, All-append P xs ys hx.1 hy)

  pub length-select-le : (p : A → Bool) (xs : List A) → length (select p xs) ≤ length xs
  unfolding select
  length-select-le p [] = omega arith
  length-select-le p (x ∷ xs) = ground (arith, length-select-le p xs)

  All-if {κ} :
      (P : A → Type κ) (b : Bool) (xs ys : List A)
      → All P xs
      → All P ys
      → All P (if b then xs else ys)
  All-if P true xs ys hx hy = hx
  All-if P false xs ys hx hy = hy

  -- An update that keeps the tested column is seen by the query that finds the row.
  pub find-update :
      (p q : A → Bool) (f : A → A) (xs : List A) (x : A)
      → ((y : A) → p (f y) ≡ p y)
      → find p xs ≡ some x
      → q x ≡ true
      → find p (update q f xs) ≡ some (f x)
  unfolding find update
  find-update p q f [] x same h hit = ground arith
  find-update p q f (y ∷ ys) x same h hit = ground (arith, same y, find-update p q f ys x same)

  pub find-update_miss :
      (p q : A → Bool) (f : A → A) (xs : List A)
      → ((y : A) → p (f y) ≡ p y)
      → ((y : A) → q y ≡ true → p y ≡ false)
      → find p (update q f xs) ≡ find p xs
  unfolding find update
  find-update_miss p q f [] same apart = refl
  find-update_miss p q f (y ∷ ys) same apart =
      ground (arith, same y, apart y, find-update_miss p q f ys same apart)

  pub find-update_any :
      (p q : A → Bool) (f : A → A) (xs : List A) (x : A)
      → ((y : A) → p (f y) ≡ p y)
      → find p xs ≡ some x
      → find p (update q f xs) ≡ some (if q x then f x else x)
  unfolding find update
  find-update_any p q f [] x same h = ground arith
  find-update_any p q f (y ∷ ys) x same h =
      ground
        (arith, same y, ap q {x = y} {y = x}, ap f {x = y} {y = x}, find-update_any p q f ys x same)

  pub find-append_hit :
      (p : A → Bool) (xs ys : List A) (x : A) → find p xs ≡ some x → find p (xs ++ ys) ≡ some x
  unfolding find
  find-append_hit p [] ys x h = ground arith
  find-append_hit p (y ∷ xs) ys x h = ground (arith, find-append_hit p xs ys x)

  pub find-append_miss :
      (p : A → Bool) (xs : List A) (x : A) → p x ≡ false → find p (xs ++ x ∷ []) ≡ find p xs
  unfolding find
  find-append_miss p [] x h = ground arith
  find-append_miss p (y ∷ xs) x h = ground (arith, find-append_miss p xs x)

  -- A deletion of rows that the query does not look for is not seen by it.
  pub find-select_hit :
      (p q : A → Bool) (xs : List A)
      → ((y : A) → p y ≡ true → q y ≡ true)
      → find p (select q xs) ≡ find p xs
  unfolding find select
  find-select_hit p q [] keep = refl
  find-select_hit p q (y ∷ ys) keep = ground (arith, keep y, find-select_hit p q ys keep)

  pub find-select-none :
      (p q : A → Bool) (xs : List A)
      → ((y : A) → p y ≡ true → q y ≡ false)
      → find p (select q xs) ≡ none
  unfolding find select
  find-select-none p q [] drop = refl
  find-select-none p q (y ∷ ys) drop = ground (arith, drop y, find-select-none p q ys drop)

  pub All-select {κ} :
      (P : A → Type κ) (p : A → Bool) (xs : List A) → All P xs → All P (select p xs)
  unfolding select
  All-select P p [] h = h
  All-select P p (x ∷ xs) h =
      let rest = All-select P p xs h.1 in
      All-if P (p x) (x ∷ select p xs) (select p xs) (h.0, rest) rest

  pub length-update : (p : A → Bool) (f : A → A) (xs : List A) → length (update p f xs) ≡ length xs
  unfolding update
  length-update p f [] = refl
  length-update p f (x ∷ xs) = ap suc (length-update p f xs)

-- `x in xs` for texts
unfoldable pub contains : List String → String → Bool
contains [] s = false
contains (x ∷ xs) s = (x is s) || contains xs s
