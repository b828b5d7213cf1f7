-- ===== src/Client/Platform.antt =====
-- client/python/py_auth_client/device_platform: the root disk, the models of disks and of the
-- processor, and the version of Windows, as the modules windows.py, posix.py and fallback.py find
-- them. What the operating system answers is an argument.
use Prim.Native.Char.{Char, code}
use py_auth.Prelude.{
  ℕ, String, Bool, true, false, ◌&&◌, ◌||◌, Option, none, some, List, [], ◌∷◌, ◌==◌, leb, ◌is◌,
  if◌then◌else◌, ℤ, pos, negsuc,
}
use py_auth.Json.{Json, Fields, null, int, str, get, put, to_int}
use py_auth.Text.{
  strip, lstrip, rstrip, append, codes, lower, has_prefix, is_space, split_at, is_line_end,
}

pub data Platform : Type 0 where
  win32 : Platform
  linux : Platform
  darwin : Platform
  other_platform : Platform

-- What the operating system gives; `none` is an exception or a program that fails.
pub record Os : Type 0 where
  pub platform : Platform
  -- the lines of /proc/cpuinfo, what `sysctl` and PowerShell print about the processor
  pub cpuinfo : Option (List String)
  pub sysctl : Option String
  pub powershell_cpu : Option String
  -- the first line of /proc/mounts, what `df /` prints, the variable `SystemDrive`
  pub first_mount : Option String
  pub df : Option String
  pub system_drive : Option String
  -- what `lsblk` prints for a device, `diskutil` for a place, PowerShell for a letter
  pub lsblk : String → Option String
  pub diskutil : String → Option String
  pub powershell_model : String → Option String
  -- the values of the registry under CurrentVersion
  pub registry : Fields

-- `str(v)`, `int(v)` of a text, and `str.upper`
pub record Conversions : Type 0 where
  pub repr : Json → String
  pub parse_int : String → Option ℤ
  pub upper : String → String

unfoldable pub text_of : Conversions → Json → String
text_of py (str s) = s
text_of py v = py.repr v

abbrev pub unless_empty : String → Option String
unless_empty s = if s is "" then none else some s

unfoldable pub has_codes : List ℕ → List ℕ → Bool
has_codes s [] = true
has_codes [] (d ∷ p) = false
has_codes (c ∷ s) (d ∷ p) = (c == d) && has_codes s p

-- `line.lower().startswith(prefix)` for a prefix of lower-case letters
abbrev starts_lower : String → String → Bool
starts_lower line prefix = has_codes (lower line) (codes prefix)

-- `s.split(":", 1)[1]`, if there is one
unfoldable pub after_colon : String → Option String
after_colon String.[] = none
after_colon (String.◌∷◌ c s) = let rest = after_colon s in if code c == b':' then some s else rest

abbrev names_cpu : String → Bool
names_cpu line =
    starts_lower line "model name"
    || starts_lower line "cpu model\t"
    || starts_lower line "processor model"

abbrev stripped : Option String → Option String
stripped none = none
stripped (some s) = unless_empty (strip s)

abbrev or_else {ℓ} : {A : Type ℓ} → Option A → Option A → Option A
or_else none b = b
or_else (some a) b = some a

-- the loop over the lines of /proc/cpuinfo
unfoldable pub cpu_line : List String → Option String
unfolding has_codes lower after_colon strip
cpu_line [] = none
cpu_line (line ∷ lines) =
    let rest = cpu_line lines in
    if names_cpu line then or_else (stripped (after_colon line)) rest else rest

-- `s.strip("\ufeff")`
abbrev pub is_bom : Char → Bool
is_bom c = code c == 0xfeff

abbrev pub printed : Option String → Option String
printed none = none
printed (some s) = unless_empty (rstrip is_bom (lstrip is_bom (strip s)))

abbrev lines_of : Option (List String) → List String
lines_of none = []
lines_of (some lines) = lines

-- `cpu_model_platform_specific`
unfoldable pub cpu_model_on : Platform → Os → Option String
unfolding cpu_line strip lstrip rstrip
cpu_model_on win32 os = printed os.powershell_cpu
cpu_model_on linux os = cpu_line (lines_of os.cpuinfo)
cpu_model_on darwin os = stripped os.sysctl
cpu_model_on other_platform os = none

-- `s.split()[0]`, empty where there is none
unfoldable pub until_space : String → String
unfolding is_space
until_space String.[] = ""
until_space (String.◌∷◌ c s) =
    let rest = until_space s in if is_space c then "" else String.◌∷◌ c rest

unfoldable pub first_word : String → String
unfolding until_space lstrip is_space
first_word s = until_space (lstrip is_space s)

abbrev is_newline : Char → Bool
is_newline c = code c == 10

abbrev is_backslash : Char → Bool
is_backslash c = code c == 92

abbrev word_or_root : String → String
word_or_root s = if s is "" then "/" else s

abbrev second_line : List String → String
second_line (a ∷ b ∷ rest) = first_word b
second_line _ = ""

abbrev text_or : String → Option String → String
text_or default none = default
text_or default (some s) = s

-- `root_disk_mount_and_id`
unfoldable pub root_disk_on : Platform → Os → String × String
unfolding first_word strip rstrip split_at
root_disk_on win32 os =
    let drive = append (rstrip is_backslash (text_or "C:" os.system_drive)) "\\" in (drive, drive)
root_disk_on linux os = ("/", word_or_root (first_word (text_or "" os.first_mount)))
root_disk_on darwin os =
    ("/", word_or_root (second_line (split_at is_newline (strip (text_or "" os.df)))))
root_disk_on other_platform os = ("/", "/")

abbrev media_name : String → Option String
media_name line =
    if has_prefix line "Device / Media Name:" || has_prefix line "Media Name:"
    then some (strip (text_or "" (after_colon line)))
    else none

-- the loop over the lines that `diskutil` prints
unfoldable pub media_line : List String → String
unfolding has_prefix after_colon strip
media_line [] = ""
media_line (line ∷ lines) = text_or (media_line lines) (media_name (strip line))

-- the letter of a place such as `C:\`, if it is one
unfoldable pub drive_letter : String → Option String
drive_letter (String.◌∷◌ letter (String.◌∷◌ c s)) =
    if code c == b':' then some (String.◌∷◌ letter "") else none
drive_letter _ = none

-- `disk_model_for_partition`
unfoldable pub disk_model_on : Platform → Conversions → Os → String → String → String
unfolding drive_letter media_line has_prefix strip split_at is_line_end
disk_model_on win32 py os mountpoint device = elim (drive_letter (strip mountpoint)) [
  | none ↦ ""
  | some letter ↦ strip (text_or "" (os.powershell_model (py.upper letter)))
]
disk_model_on linux py os mountpoint device =
    if has_prefix (strip device) "/dev/" then strip (text_or "" (os.lsblk (strip device))) else ""
disk_model_on darwin py os mountpoint device =
    media_line (split_at is_line_end (text_or "" (os.diskutil (strip mountpoint))))
disk_model_on other_platform py os mountpoint device = ""

-- `int(ubr_raw) if ubr_raw is not None else 0`, 0 where that fails
abbrev revision : Conversions → Option Json → ℤ
revision py none = pos 0
revision py (some null) = pos 0
revision py (some v) = elim (to_int py.parse_int v) [ none ↦ pos 0 | some z ↦ z ]

abbrev is_eleven : ℤ → Bool
is_eleven (pos n) = leb 22000 n
is_eleven (negsuc n) = false

abbrev put_some : String → Option String → Fields → Fields
put_some key none facts = facts
put_some key (some s) facts = put key (str s) facts

abbrev text_at : Conversions → String → Fields → Option String
text_at py key d = elim (get key d) [
  | none ↦ none
  | some v ↦ elim v [ null ↦ none | w ↦ some (strip (text_of py w)) ]
]

-- `apply_os_version_facts` of windows.py, where the registry has a build
unfoldable pub windows_version : Conversions → Fields → String → Fields → Fields
unfolding to_int get put text_of strip
windows_version py registry build facts =
    let version =
      append "10.0."
        (append build (append "." (py.repr (int (revision py (get "UBR" registry)))))) in
    let released : Option String = elim (py.parse_int build) [
      | none ↦ none
      | some n ↦ some (if is_eleven n then "11" else "10")
    ] in
    put_some "windows_product_name" (text_at py "ProductName" registry) (
      put_some "windows_display_version" (text_at py "DisplayVersion" registry)
        (put_some "release" released (put "version" (str version) facts)))

-- `apply_os_version_facts`
unfoldable pub os_version_on : Platform → Conversions → Os → Fields → Fields
unfolding windows_version get text_of strip
os_version_on win32 py os facts = elim (text_at py "CurrentBuild" os.registry) [
  | none ↦ facts
  | some build ↦ if build is "" then facts else windows_version py os.registry build facts
]
os_version_on _ py os facts = facts
