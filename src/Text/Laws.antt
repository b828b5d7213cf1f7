-- ===== src/Text/Laws.antt =====
-- Laws of `strip`.
use Prim.Native.Char.{Char}
use py_auth.Prelude.{String, ◌≡◌, refl, Bool, false, arith, Bool-cases, inl, inr}
use py_auth.Text.{is_space, is_empty, lstrip, rstrip, strip}

module _ (p : Char → Bool) where
  rstrip-rstrip : (s : String) → rstrip p (rstrip p s) ≡ rstrip p s
  unfolding rstrip is_empty
  rstrip-rstrip String.[] = refl
  rstrip-rstrip (String.◌∷◌ c s) = ground (arith, rstrip-rstrip s)

  -- a text that does not begin with a dropped code point
  abbrev Starts : String → Type 0
  Starts String.[] = Unit
  Starts (String.◌∷◌ c s) = p c ≡ false

  lstrip-Starts : (s : String) → Starts (lstrip p s)
  unfolding lstrip
  lstrip-Starts String.[] = tt
  lstrip-Starts (String.◌∷◌ c s) = elim (Bool-cases (p c)) [
    | inl e ↦ rw e (lstrip-Starts s)
    | inr e ↦ rw e e
  ]

  lstrip_of_Starts : (s : String) → Starts s → lstrip p s ≡ s
  unfolding lstrip
  lstrip_of_Starts String.[] h = refl
  lstrip_of_Starts (String.◌∷◌ c s) h = rw h refl

  rstrip-Starts : (s : String) → Starts s → Starts (rstrip p s)
  unfolding rstrip
  rstrip-Starts String.[] h = tt
  rstrip-Starts (String.◌∷◌ c s) h = rw h h

-- Stripping a stripped text changes nothing.
pub strip-strip : (s : String) → strip (strip s) ≡ strip s
unfolding strip
strip-strip s =
    let t = lstrip is_space s in
    rw
      (lstrip_of_Starts is_space (rstrip is_space t)
        (rstrip-Starts is_space t (lstrip-Starts is_space s)))
      (rstrip-rstrip is_space t)
