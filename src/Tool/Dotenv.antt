-- ===== src/Tool/Dotenv.antt =====
-- The address of the server that the tool finds in two environment files.
use py_auth.Prelude.{
  String, ◌≡◌, ◌||◌, Option, none, some, List, [], ◌∷◌, ◌is◌, Bool-cases, Option-cases, inl, inr,
}
use py_auth.Json.{Fields, end, get}
use py_auth.Json.Laws.{IsDict, put-IsDict, get-update_fields}
use py_auth.Text.{strip, has_prefix, split_at, is_line_end}
use py_auth.Tool.{parse_line, parse_lines, parse_dotenv, merged_dotenv, partition_eq}

parse_line-IsDict : (out : Fields) (line : String) → IsDict out → IsDict (parse_line out line)
unfolding parse_line
parse_line-IsDict out line d =
    elim (Bool-cases ((strip line is "") || has_prefix (strip line) "#")) [
      | inl e ↦ rw e d
      | inr e ↦ elim (Option-cases (partition_eq (strip line))) [
        | inl f ↦ rw (e, f) d
        | inr ((k, v), f) ↦ elim (Bool-cases (strip k is "")) [
          | inl g ↦ rw (e, f, g) d
          | inr g ↦ rw (e, f, g) (put-IsDict (strip k) _ out d)
        ]
      ]
    ]

parse_lines-IsDict :
    (out : Fields) (lines : List String) → IsDict out → IsDict (parse_lines out lines)
unfolding parse_lines
parse_lines-IsDict out [] d = d
parse_lines-IsDict out (line ∷ lines) d =
    parse_lines-IsDict (parse_line out line) lines (parse_line-IsDict out line d)

parse_dotenv-IsDict : (text : Option String) → IsDict (parse_dotenv text)
unfolding parse_dotenv
parse_dotenv-IsDict none = tt
parse_dotenv-IsDict (some text) = parse_lines-IsDict end (split_at is_line_end text) tt

-- A variable that both environment files set has the value of the one in the working directory; one
-- that only one of them sets has its value there.
pub merged_dotenv-get :
    (key : String) (repository cwd : Option String)
    → get key (merged_dotenv repository cwd) ≡ elim (get key (parse_dotenv cwd)) [
      | none ↦ get key (parse_dotenv repository)
      | some v ↦ some v
    ]
unfolding merged_dotenv
merged_dotenv-get key repository cwd =
    get-update_fields key (parse_dotenv repository) (parse_dotenv cwd) (parse_dotenv-IsDict cwd)
