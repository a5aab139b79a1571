-- ===== src/Netconf/Ranges.antt =====
-- PICA_netconf.c: the addresses that `PICA_is_reserved_addr_ipv4` takes for reserved, as ranges.
use pica_pica.Common.{◌<◌, ◌≤◌, ◌≡◌, ◌↔◌, ◌⊎◌, true, arith}
use pica_pica.Netconf.{Ipv4, is_reserved_addr_ipv4}

-- A network of reserved addresses: this host's, private, loopback or link-local ones, and all
-- multicast and class E ones with the broadcast address.
pub Reserved : Ipv4 → Type 0
Reserved a =
    (a.b0 ≡ 0)
    ⊎ (a.b0 ≡ 10)
    ⊎ (a.b0 ≡ 127)
    ⊎ ((a.b0 ≡ 169) × (a.b1 ≡ 254))
    ⊎ ((a.b0 ≡ 172) × (16 ≤ a.b1) × (a.b1 < 32))
    ⊎ ((a.b0 ≡ 192) × (a.b1 ≡ 168))
    ⊎ (224 ≤ a.b0)

-- The masks pick exactly the reserved networks, as ranges of the address's first bytes: the test
-- answers true for the addresses in them and for no other. The first byte has to be a byte.
pub is_reserved_addr_ipv4-Reserved :
    (a : Ipv4) → a.b0 < 256 → (is_reserved_addr_ipv4 a ≡ true) ↔ Reserved a
unfolding is_reserved_addr_ipv4 Reserved
is_reserved_addr_ipv4-Reserved a h = ground arith
