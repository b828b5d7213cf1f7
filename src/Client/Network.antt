-- ===== src/Client/Network.antt =====
-- client/python/py_auth_client/device_utils.py: the address of the network card and of the device.
-- What psutil lists is an argument, and so is the address that a socket to the outside would have.
-- A score is held as 75 more than in the code, which keeps it from falling below zero; only the order
-- of scores is used.
pub mod Node
use Prim.Native.Char.{Char, code}
use py_auth.Prelude.{
  ℕ, zero, suc, ◌+◌, ◌-◌, ◌*◌, ◌/◌, ◌%◌, ◌^◌, String, Bool, true, false, not, ◌&&◌, ◌||◌, Option,
  none, some, List, [], ◌∷◌, ◌++◌, map, find, length, contains, ltb, leb, ◌==◌, ◌is◌, if◌then◌else◌,
}
use py_auth.Text.{strip, append, join, take_text, has_prefix, has_part, split_at}
use py_auth.Client.Bundle.{is_some}

-- `str.lower`, and `int(text, 16)` for a text without a sign in front; `none` is a `ValueError`
pub record Python : Type 0 where
  pub lower : String → String
  pub int16 : String → Option ℕ

unfoldable pub nth_text : ℕ → String → String
nth_text n String.[] = ""
nth_text zero (String.◌∷◌ c s) = String.◌∷◌ c ""
nth_text (suc n) (String.◌∷◌ c s) = nth_text n s

abbrev hex_digit : ℕ → String
hex_digit n = nth_text n "0123456789abcdef"

-- the digits of a number; as many rounds as the number itself are enough, since it is divided by 16
unfoldable pub hex_digits : ℕ → ℕ → String
unfolding nth_text
hex_digits zero n = hex_digit (n % 16)
hex_digits (suc fuel) n =
    let more = hex_digits fuel (n / 16) in
    if ltb n 16 then hex_digit n else append more (hex_digit (n % 16))

-- `f"{n:02x}"`
unfoldable pub hex2 : ℕ → String
unfolding hex_digits
hex2 n = if ltb n 16 then append "0" (hex_digits n n) else hex_digits n n

abbrev is_colon : Char → Bool
is_colon c = code c == b':'

abbrev is_dash : Char → Bool
is_dash c = code c == b'-'

-- `s.replace("-", ":")`
unfoldable pub dashes_to_colons : String → String
dashes_to_colons String.[] = ""
dashes_to_colons (String.◌∷◌ c s) = String.◌∷◌ (if is_dash c then ":" else c) (dashes_to_colons s)

-- `s.replace(":", "").replace("-", "")`
unfoldable pub without_separators : String → String
without_separators String.[] = ""
without_separators (String.◌∷◌ c s) =
    let rest = without_separators s in if is_colon c || is_dash c then rest else String.◌∷◌ c rest

unfoldable pub nonempty : List String → List String
nonempty [] = []
nonempty (p ∷ ps) = let rest = nonempty ps in if p is "" then rest else p ∷ rest

abbrev then_octet : Option ℕ → Option (List String) → Option (List String)
then_octet (some n) (some out) = some (hex2 n ∷ out)
then_octet _ _ = none

unfoldable pub octets : Python → List String → Option (List String)
unfolding hex2
octets py [] = some []
octets py (p ∷ ps) = then_octet (py.int16 p) (octets py ps)

abbrev unless_zero : Option (List String) → Option String
unless_zero none = none
unless_zero (some out) = if join ":" out is "00:00:00:00:00:00" then none else some (join ":" out)

-- `_normalize_mac_colon_lower`
unfoldable pub normalize_mac_colon_lower : Python → String → Option String
unfolding strip dashes_to_colons nonempty octets split_at join
normalize_mac_colon_lower py addr =
    if addr is ""
    then none
    else (let parts = nonempty (split_at is_colon (dashes_to_colons (py.lower (strip addr)))) in
        if length parts == 6 then unless_zero (octets py parts) else none)

abbrev any_prefix : List String → String → Bool
any_prefix [] s = false
any_prefix (p ∷ ps) s = has_prefix s p || any_prefix ps s

-- `_is_probably_virtual_mac`
unfoldable pub is_probably_virtual_mac : Python → String → Bool
unfolding without_separators has_prefix take_text
is_probably_virtual_mac py mac =
    let m = without_separators (py.lower mac) in
    not (take_text 5 m is m)
    && any_prefix ("005056" ∷ "000c29" ∷ "000569" ∷ "001c14" ∷ "080027" ∷ "00155d" ∷ "525400" ∷ [])
        m

-- an address with the missing one as the empty text, which the code tests in the same way
pub record Endpoint : Type 0 where
  pub mac : String
  pub ip : String

abbrev pub present : String → Bool
present s = not (s is "")

-- `_network_endpoint_score`
unfoldable pub network_endpoint_score : Python → Endpoint → ℕ
unfolding is_probably_virtual_mac has_prefix
network_endpoint_score py e =
    let with_ip : ℕ =
      if present e.ip
      then 115
        - (if has_prefix e.ip "169.254." then 25 else 0)
        - (if has_prefix e.ip "192.168.117." then 50 else 0)
      else 75 in
    with_ip
    + (if present e.mac then 10 else 0)
    + (if present e.mac && not (is_probably_virtual_mac py e.mac) then 100 else 0)

-- the families of addresses that psutil lists
pub data Family : Type 0 where
  inet : Family
  link : Family
  other : Family

-- one card: its name, whether it is up if psutil says so, and its addresses
pub record Card : Type 0 where
  pub name : String
  pub is_up : Option Bool
  pub addresses : List (Family × String)

-- `_iface_loopback_name`
unfoldable pub iface_loopback_name : Python → String → Bool
unfolding has_part
iface_loopback_name py name = (py.lower name is "lo") || has_part (py.lower name) "loopback"

abbrev mac_text : Option String → String
mac_text none = ""
mac_text (some s) = s

-- the loop over the addresses of a card: the last of each kind counts
unfoldable pub endpoint_of : Python → List (Family × String) → Endpoint → Endpoint
unfolding normalize_mac_colon_lower has_prefix
endpoint_of py [] e = e
endpoint_of py ((inet, addr) ∷ rest) e =
    endpoint_of py rest
      (if has_prefix addr "127." || has_prefix addr "169.254." then e else record e { ip = addr })
endpoint_of py ((link, addr) ∷ rest) e =
    endpoint_of py rest (record e { mac = mac_text (normalize_mac_colon_lower py addr) })
endpoint_of py ((other, addr) ∷ rest) e = endpoint_of py rest e

abbrev is_down : Option Bool → Bool
is_down (some false) = true
is_down _ = false

-- the loop over the cards
unfoldable pub endpoints : Python → List Card → List Endpoint
unfolding iface_loopback_name endpoint_of
endpoints py [] = []
endpoints py (card ∷ cards) =
    let rest = endpoints py cards in
    let e = endpoint_of py card.addresses (record { mac = ""; ip = "" }) in
    if iface_loopback_name py card.name || is_down card.is_up
    then rest
    else if present e.mac || present e.ip
    then e ∷ rest
    else rest

-- A stable sort, highest score first: an element stays before those of the same score that follow it.
unfoldable pub insert_scored : Python → Endpoint → List Endpoint → List Endpoint
unfolding network_endpoint_score
insert_scored py e [] = e ∷ []
insert_scored py e (f ∷ fs) =
    let rest = insert_scored py e fs in
    if ltb (network_endpoint_score py e) (network_endpoint_score py f) then f ∷ rest else e ∷ f ∷ fs

-- `_sorted_scored_iface_endpoints`; `none` is an exception of psutil
unfoldable pub sort_scored : Python → List Endpoint → List Endpoint
unfolding insert_scored
sort_scored py [] = []
sort_scored py (e ∷ es) = insert_scored py e (sort_scored py es)

unfoldable pub sorted_scored_iface_endpoints : Python → Option (List Card) → List Endpoint
unfolding endpoints sort_scored
sorted_scored_iface_endpoints py none = []
sorted_scored_iface_endpoints py (some cards) = sort_scored py (endpoints py cards)

-- the tests of the loops of `_preferred_mac_and_ipv4`
abbrev pub has_both_outside : Endpoint → Bool
has_both_outside e = present e.mac && present e.ip && not (has_prefix e.ip "127.")

abbrev has_both : Endpoint → Bool
has_both e = present e.mac && present e.ip

abbrev ip_outside : Endpoint → Bool
ip_outside e = present e.ip && not (has_prefix e.ip "127.") && not (has_prefix e.ip "169.254.")

abbrev real_mac : Python → Endpoint → Bool
real_mac py e = present e.mac && not (is_probably_virtual_mac py e.mac)

abbrev has_mac : Endpoint → Bool
has_mac e = present e.mac

abbrev or_else {ℓ} : {A : Type ℓ} → Option A → Option A → Option A
or_else none b = b
or_else (some a) b = some a

abbrev mac_of : Option Endpoint → String
mac_of none = ""
mac_of (some e) = e.mac

abbrev ip_or : String → Option Endpoint → String
ip_or hint none = hint
ip_or hint (some e) = e.ip

-- `_preferred_mac_and_ipv4`; `hint` is what `_outbound_ipv4_hint` gives, empty if nothing
unfoldable pub preferred_mac_and_ipv4 : Python → String → List Endpoint → Endpoint
unfolding find is_probably_virtual_mac has_prefix
preferred_mac_and_ipv4 py hint candidates =
    elim (or_else (find has_both_outside candidates) (find has_both candidates)) [
      | some e ↦ e
      | none ↦ record {
        mac = mac_of (or_else (find (real_mac py) candidates) (find has_mac candidates));
        ip = ip_or hint (find ip_outside candidates);
      }
    ]

-- `_collect_network_interface_rows`: the endpoints, each once
unfoldable pub collect_network_interface_rows : List String → List Endpoint → List Endpoint
unfolding contains
collect_network_interface_rows seen [] = []
collect_network_interface_rows seen (e ∷ es) =
    let key = append e.mac (append "|" e.ip) in
    let rest = collect_network_interface_rows (key ∷ seen) es in
    if contains seen key then collect_network_interface_rows seen es else e ∷ rest

-- `(mac_int >> shift) & 0xFF`
abbrev pub octet_at : ℕ → ℕ → ℕ
octet_at shift mac_int = mac_int / 2 ^ shift % 256

-- `_mac_from_uuid_node`, of the number that `uuid.getnode` gives
unfoldable pub mac_from_uuid_node : Python → ℕ → Option String
unfolding normalize_mac_colon_lower join hex2
mac_from_uuid_node py mac_int =
    if mac_int / 2 ^ 40 % 2 == 1
    then none
    else normalize_mac_colon_lower py (
        join ":" (
          hex2 (octet_at 10 mac_int)
          ∷ hex2 (octet_at 8 mac_int)
          ∷ hex2 (octet_at 6 mac_int)
          ∷ hex2 (octet_at 4 mac_int)
          ∷ hex2 (octet_at 2 mac_int)
          ∷ hex2 (octet_at 0 mac_int)
          ∷ []))

-- `get_mac_address`
unfoldable pub get_mac_address : Python → String → List Endpoint → ℕ → Option String
unfolding preferred_mac_and_ipv4 mac_from_uuid_node
get_mac_address py hint candidates mac_int =
    let e = preferred_mac_and_ipv4 py hint candidates in
    if present e.mac then some e.mac else mac_from_uuid_node py mac_int
