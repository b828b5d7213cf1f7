-- ===== src/Prelude/Members.antt =====
-- Membership in the rows that a query selects.
use mathlib.Core.Path.{◌≡◌, sym, ap, ◌∙◌}
use mathlib.Core.Logic.{◌↔◌, ◌⊎◌, inl, inr}
use mathlib.Core.Logic.Or
use mathlib.Core.Bool.{Bool, true, false, Bool-discrete}
use mathlib.Core.HLevel.{×_prop, hedberg}
use mathlib.Core.List.{
  List, [], ◌∷◌, Mem, Mem-prop, not-mem-nil, mem-cons_self, mem-cons_of_mem, eq-or-mem_of_mem-cons,
}
use py_auth.Prelude.Tests.{if◌then◌else◌, Bool-cases}
use py_auth.Prelude.Lists.{select}

module _ {ℓ} {A : Type ℓ} (p : A → Bool) (x : A) where
  kept_prop : (xs : List A) → IsProp (Mem x xs × (p x ≡ true))
  kept_prop xs = ×_prop Mem-prop (hedberg Bool-discrete (p x) true)

  mem-select_to : (xs : List A) → Mem x (select p xs) → Mem x xs × (p x ≡ true)
  unfolding select
  mem-select_to [] m = absurd (not-mem-nil m)
  mem-select_to (y ∷ ys) m = elim (Bool-cases (p y)) [
    | inl e ↦
        Or.elim (kept_prop (y ∷ ys)) (eq-or-mem_of_mem-cons (rw e at m))
          (λ same. (rw same mem-cons_self, ap p same ∙ e))
          (λ later. let (n, h) = mem-select_to ys later in (mem-cons_of_mem y n, h))
    | inr e ↦ let (n, h) = mem-select_to ys (rw e at m) in (mem-cons_of_mem y n, h)
  ]

  mem-select_of : (xs : List A) → Mem x xs → p x ≡ true → Mem x (select p xs)
  unfolding select
  mem-select_of [] m h = m
  mem-select_of (y ∷ ys) m h =
      Or.elim Mem-prop (eq-or-mem_of_mem-cons m)
        (λ same. rw (sym (ap p same) ∙ h) (rw same mem-cons_self))
        (λ later. step (mem-select_of ys later h) (Bool-cases (p y)))
    where
      step :
          Mem x (select p ys)
          → (p y ≡ true) ⊎ (p y ≡ false)
          → Mem x (if p y then y ∷ select p ys else select p ys)
      step n (inl e) = rw e (mem-cons_of_mem y n)
      step n (inr e) = rw e n

  pub mem-select : (xs : List A) → Mem x (select p xs) ↔ (Mem x xs × (p x ≡ true))
  mem-select xs = (mem-select_to xs, λ k. mem-select_of xs k.0 k.1)
