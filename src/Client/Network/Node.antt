-- ===== src/Client/Network/Node.antt =====
-- device_utils.py: what `_mac_from_uuid_node` makes of the number of the node.
use py_auth.Prelude.{ℕ, ◌/◌, ◌%◌, ◌^◌, ◌≡◌, arith, refl}
use py_auth.Client.Network.{Python, mac_from_uuid_node, octet_at}

-- the six octets at shifts of 10 bits at most lie within the lower 18 bits
octets_agree :
    (n m : ℕ)
    → n % 2 ^ 18 ≡ m % 2 ^ 18
    → (octet_at 10 n ≡ octet_at 10 m)
      × (octet_at 8 n ≡ octet_at 8 m)
      × (octet_at 6 n ≡ octet_at 6 m)
      × (octet_at 4 n ≡ octet_at 4 m)
      × (octet_at 2 n ≡ octet_at 2 m)
      × (octet_at 0 n ≡ octet_at 0 m)
octets_agree n m e = (omega arith, omega arith, omega arith, omega arith, omega arith, omega arith)

-- Two numbers of a node that agree in their lower 18 bits, and have no multicast bit, give the same
-- address: the octets are taken at shifts that are two bits apart.
pub mac_from_uuid_node-low_bits :
    (py : Python) (n m : ℕ)
    → n % 2 ^ 18 ≡ m % 2 ^ 18
    → n / 2 ^ 40 % 2 ≡ 0
    → m / 2 ^ 40 % 2 ≡ 0
    → mac_from_uuid_node py n ≡ mac_from_uuid_node py m
unfolding mac_from_uuid_node
mac_from_uuid_node-low_bits py n m e bit_n bit_m =
    let (a, b, c, d, f, g) = octets_agree n m e in rw (bit_n, bit_m, a, b, c, d, f, g) refl
