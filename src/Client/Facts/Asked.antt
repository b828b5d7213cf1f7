-- ===== src/Client/Facts/Asked.antt =====
-- device_utils.py: what `collect_device_facts` asks of psutil and of the platform. `gib` is
-- a size in gigabytes with two digits after the point, and `round2` a number so rounded.
use py_auth.Prelude.{ℕ, ◌*◌, String, Bool, false, not, Option, List, ℤ, pos, negsuc, ◌==◌}
use py_auth.Json.{Json}
use py_auth.Client.Platform.{Os, Conversions}
use py_auth.Client.Network.{Endpoint, Python}

-- frequencies in millionths; `none` is None
pub record Frequency : Type 0 where
  pub current : Option ℤ
  pub least : Option ℤ
  pub most : Option ℤ

-- a place that psutil lists, with its size and free space, if these can be read
pub record Partition : Type 0 where
  pub mountpoint : String
  pub device : String
  pub usage : Option (ℕ × ℕ)

-- What the queries give; `none` is an exception.
pub record System : Type 0 where
  pub os : Os
  pub system : String
  pub release : String
  pub version : String
  pub machine : String
  pub processor : String
  pub hostname : String
  pub network : Endpoint
  pub node : ℕ
  pub cpu_count : Option Json
  pub cpu_count_physical : Option (Option ℤ)
  pub cpu_freq : Option (Option Frequency)
  -- the whole, available and free memory, and the whole and free space at a place, in bytes
  pub memory : Option (ℕ × ℕ × ℕ)
  pub disk_usage : String → Option (ℕ × ℕ)
  pub partitions : Option (List Partition)
  -- what the script that lists the disks prints, if it runs and gives the status 0
  pub powershell_disks : Option String

pub record Tools : Type 0 where
  pub conversions : Conversions
  pub python : Python
  pub parse_float : String → Option ℤ
  pub loads : String → Option Json
  -- of a number of bytes in millionths
  pub gib : ℤ → Json
  pub round2 : ℤ → Json

abbrev pub is_positive : ℤ → Bool
is_positive (pos n) = not (n == 0)
is_positive (negsuc n) = false

abbrev pub bytes : Tools → ℕ → Json
bytes t n = t.gib (pos (n * 1000000))
