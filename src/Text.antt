-- ===== src/Text.antt =====
-- The text operations of Python that the program calls: `str.strip`, `str.rstrip("/")` and
-- `str.lower`. A text is a native `String`, the sequence of its code points.
-- `strip` drops the code points for which `str.isspace` holds. `lower` maps the ASCII capitals: it
-- is called only to compare a text with ASCII words, and of the other code points only U+212A
-- becomes an ASCII letter, `k`, which none of those words has.
pub mod Laws
pub mod Decimal
use Prim.Native.Char.{Char, code}
use py_auth.Prelude.{
  ℕ, ◌+◌, String, Bool, true, false, ◌&&◌, ◌||◌, List, [], ◌∷◌, map, leb, ◌==◌, ◌is◌, zero, suc,
  if◌then◌else◌,
}

-- `str.isspace` of one code point
unfoldable pub is_space : Char → Bool
is_space c =
    let n = code c in
    (leb 9 n && leb n 13)
    || (leb 28 n && leb n 32)
    || (n == 0x85)
    || (n == 0xa0)
    || (n == 0x1680)
    || (leb 0x2000 n && leb n 0x200a)
    || (n == 0x2028)
    || (n == 0x2029)
    || (n == 0x202f)
    || (n == 0x205f)
    || (n == 0x3000)

unfoldable pub is_slash : Char → Bool
is_slash c = code c == b'/'

unfoldable pub is_empty : String → Bool
is_empty String.[] = true
is_empty (String.◌∷◌ c s) = false

unfoldable pub lstrip : (Char → Bool) → String → String
lstrip p String.[] = String.[]
lstrip p (String.◌∷◌ c s) = if p c then lstrip p s else String.◌∷◌ c s

unfoldable pub rstrip : (Char → Bool) → String → String
rstrip p String.[] = String.[]
rstrip p (String.◌∷◌ c s) =
    let rest = rstrip p s in if p c && is_empty rest then String.[] else String.◌∷◌ c rest

-- `s.strip()`
unfoldable pub strip : String → String
unfolding lstrip rstrip is_space is_empty
strip s = rstrip is_space (lstrip is_space s)

abbrev pub codes : String → List ℕ
codes String.[] = []
codes (String.◌∷◌ c s) = code c ∷ codes s

unfoldable pub lower_code : ℕ → ℕ
lower_code n = if leb b'A' n && leb n b'Z' then n + 32 else n

-- the code points of `s.lower()`
unfoldable pub lower : String → List ℕ
unfolding lower_code
lower s = map lower_code (codes s)

unfoldable pub same_codes : List ℕ → List ℕ → Bool
same_codes [] [] = true
same_codes [] (y ∷ ys) = false
same_codes (x ∷ xs) [] = false
same_codes (x ∷ xs) (y ∷ ys) = (x == y) && same_codes xs ys

-- `s + t`
abbrev pub append : String → String → String
append String.[] t = t
append (String.◌∷◌ c s) t = String.◌∷◌ c (append s t)

-- `sep.join(texts)`
unfoldable pub join : String → List String → String
join sep [] = ""
join sep (s ∷ []) = s
join sep (s ∷ t ∷ rest) = append s (append sep (join sep (t ∷ rest)))

-- `s[:n]`
unfoldable pub take_text : ℕ → String → String
take_text zero s = ""
take_text (suc n) String.[] = ""
take_text (suc n) (String.◌∷◌ c s) = String.◌∷◌ c (take_text n s)

-- `s.startswith(prefix)`
unfoldable pub has_prefix : String → String → Bool
has_prefix s String.[] = true
has_prefix String.[] (String.◌∷◌ d p) = false
has_prefix (String.◌∷◌ c s) (String.◌∷◌ d p) = (code c == code d) && has_prefix s p

-- `part in s`
unfoldable pub has_part : String → String → Bool
unfolding has_prefix is_empty
has_part String.[] part = is_empty part
has_part (String.◌∷◌ c s) part = has_prefix (String.◌∷◌ c s) part || has_part s part

-- `s.endswith(suffix)`
unfoldable pub has_suffix : String → String → Bool
unfolding is_empty
has_suffix String.[] suffix = is_empty suffix
has_suffix (String.◌∷◌ c s) suffix = (String.◌∷◌ c s is suffix) || has_suffix s suffix

abbrev cons_first : Char → List String → List String
cons_first c [] = String.◌∷◌ c "" ∷ []
cons_first c (s ∷ ss) = String.◌∷◌ c s ∷ ss

-- `s.split(sep)` for one code point `sep`
unfoldable pub split_at : (Char → Bool) → String → List String
split_at p String.[] = "" ∷ []
split_at p (String.◌∷◌ c s) =
    let rest = split_at p s in if p c then "" ∷ rest else cons_first c rest

-- the ends of lines that `splitlines` knows; an empty line more, as between `\r` and `\n`, is skipped
unfoldable pub is_line_end : Char → Bool
is_line_end c =
    let n = code c in
    (leb 10 n && leb n 13)
    || (leb 28 n && leb n 30)
    || (n == 0x85)
    || (n == 0x2028)
    || (n == 0x2029)
