-- ===== src/Client/Disks/Keys.antt =====
-- device_utils.py: that the search for a key that no other volume has comes to an end.
use py_auth.Prelude.{
  ℕ, zero, suc, ◌+◌, ◌≤◌, ◌<◌, ◌≡◌, ◌≢◌, refl, String, true, false, not, some, List, [], ◌∷◌,
  length, select, contains, ◌is◌, is_iff, arith, ap, Bool-cases, inl, inr,
}
use native.Mathlib.Decide.{dec_lt}
use py_auth.Text.{append}
use py_auth.Text.Decimal.{decimal, decimal-inj}
use py_auth.Client.Disks.{key_with, key_base, free_key, disk_volume_map_key}

abbrev size : String → ℕ
size String.[] = 0
size (String.◌∷◌ c s) = suc (size s)

size-append : (s t : String) → size (append s t) ≡ size s + size t
size-append String.[] t = omega arith
size-append (String.◌∷◌ c s) t = omega (arith, size-append s t)

tail : String → String
tail String.[] = ""
tail (String.◌∷◌ c s) = s

append-cancel : (s t u : String) → append s t ≡ append s u → t ≡ u
append-cancel String.[] t u e = e
append-cancel (String.◌∷◌ c s) t u e = append-cancel s t u (unfold tail in ap tail e)

-- what stands behind the base and the place in the keys from the second suffix on
abbrev numbered : ℕ → String
numbered n = append " (" (append (decimal n) ")")

numbered-inj :
    (base mount : String) (n m : ℕ)
    → append base (append " @ " (append mount (numbered n)))
      ≡ append base (append " @ " (append mount (numbered m)))
    → n ≡ m
numbered-inj base mount n m e = decimal-inj n m (
    append-cancel " (" _ _
      (append-cancel mount _ _ (append-cancel " @ " _ _ (append-cancel base _ _ e))))

-- different suffixes give different keys
key_with-inj :
    (base mount : String) (n m : ℕ) → key_with base mount n ≡ key_with base mount m → n ≡ m
unfolding key_with
key_with-inj base mount zero zero e = refl
key_with-inj base mount zero (suc zero) e =
    absurd (omega (arith, ap size e, size-append base (append " @ " mount)))
key_with-inj base mount zero (suc (suc m)) e = absurd (
    omega
      (arith, ap size e, size-append base (append " @ " (append mount (numbered (suc (suc m)))))))
key_with-inj base mount (suc zero) zero e =
    absurd (omega (arith, ap size e, size-append base (append " @ " mount)))
key_with-inj base mount (suc zero) (suc zero) e = refl
key_with-inj base mount (suc zero) (suc (suc m)) e = absurd (
    omega (
      arith,
      ap size e,
      size-append base (append " @ " mount),
      size-append base (append " @ " (append mount (numbered (suc (suc m))))),
      size-append mount (numbered (suc (suc m))),
    ))
key_with-inj base mount (suc (suc n)) zero e = absurd (
    omega
      (arith, ap size e, size-append base (append " @ " (append mount (numbered (suc (suc n)))))))
key_with-inj base mount (suc (suc n)) (suc zero) e = absurd (
    omega (
      arith,
      ap size e,
      size-append base (append " @ " mount),
      size-append base (append " @ " (append mount (numbered (suc (suc n))))),
      size-append mount (numbered (suc (suc n))),
    ))
key_with-inj base mount (suc (suc n)) (suc (suc m)) e =
    numbered-inj base mount (suc (suc n)) (suc (suc m)) e

-- the used keys without one
abbrev without : String → List String → List String
without k = select (λ s. not (s is k))

without-length-le : (k : String) (used : List String) → length (without k used) ≤ length used
unfolding select
without-length-le k [] = omega arith
without-length-le k (s ∷ used) = ground (arith, without-length-le k used)

without-length :
    (k : String) (used : List String)
    → contains used k ≡ true
    → length (without k used) < length used
unfolding select contains
without-length k [] h = ground arith
without-length k (s ∷ used) h = ground (arith, without-length k used, without-length-le k used)

contains-without :
    (k j : String) (used : List String) → j ≢ k → contains (without k used) j ≡ contains used j
unfolding select contains
contains-without k j [] h = refl
contains-without k j (s ∷ used) h =
    ground (arith, is_iff s k, is_iff s j, contains-without k j used)

module _ (key : ℕ → String) (inj : (n m : ℕ) → key n ≡ key m → n ≡ m) where
  -- a used key below the suffix does not matter
  free_key-without :
      (fuel suffix : ℕ) (used : List String) (n : ℕ)
      → n < suffix
      → free_key fuel key (without (key n) used) suffix ≡ free_key fuel key used suffix
  unfolding free_key
  free_key-without zero suffix used n h = refl
  free_key-without (suc fuel) suffix used n h =
      rw
        (
          free_key-without fuel (suc suffix) used n (omega arith),
          contains-without (key n) (key suffix) used (λ e. absurd (omega (arith, inj suffix n e))),
        )
        refl

  -- with more rounds than used keys the first free key from the suffix on is found
  free_key_found :
      (fuel suffix : ℕ) (used : List String)
      → length used < fuel
      → (n : ℕ) × (suffix ≤ n)
        × (free_key fuel key used suffix ≡ some (key n))
        × (contains used (key n) ≡ false)
        × ((m : ℕ) → suffix ≤ m → m < n → contains used (key m) ≡ true)
  unfolding free_key
  free_key_found zero suffix used h = absurd (omega arith)
  free_key_found (suc fuel) suffix used h = elim (Bool-cases (contains used (key suffix))) [
    | inr e ↦ (suffix, omega arith, rw e refl, e, λ m above below. absurd (omega arith))
    | inl e ↦
        let others = without (key suffix) used in
        let (n, later, found, free, taken) =
          free_key_found fuel (suc suffix) others
            (omega (arith, without-length (key suffix) used e)) in
        let same = λ (m : ℕ) (after : suffix < m).
          contains-without (key suffix) (key m) used
            (λ q. absurd (omega (arith, inj m suffix q))) in
        (
          n,
          omega arith,
          rw (e, ← free_key-without fuel (suc suffix) used suffix (omega arith)) found,
          rw (← same n (omega arith)) free,
          λ m above below. elim (dec_lt suffix m) [
            | yes after ↦ rw (← same m after) (taken m (omega arith) below)
            | no not_after ↦ let here : m ≡ suffix = omega arith in rw here e
          ],
        )
  ]

-- The search for a key of a volume ends, however many keys are used: with one round more than there
-- are used keys it gives the first key of its sequence (the base, the base with the place, then with
-- the place and the numbers from 2 on) that is not used, all those before it being used.
pub disk_volume_map_key_found :
    (model mount device : String) (used : List String)
    → (n : ℕ) × (disk_volume_map_key model mount device used
        ≡ some (key_with (key_base model mount device) mount n))
      × (contains used (key_with (key_base model mount device) mount n) ≡ false)
      × ((m : ℕ) → m < n → contains used (key_with (key_base model mount device) mount m) ≡ true)
unfolding disk_volume_map_key
disk_volume_map_key_found model mount device used =
    let base = key_base model mount device in
    let (n, above, found, free, taken) =
      free_key_found (key_with base mount) (key_with-inj base mount) (suc (length used)) 0 used
        (omega arith) in
    (n, found, free, λ m below. taken m (omega arith) below)
