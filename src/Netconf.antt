-- ===== src/Netconf.antt =====
-- PICA_netconf.c: `PICA_is_reserved_addr_ipv4`. An address is its four bytes in network order, first
-- byte first, as `in_addr_t` has them in memory; `&` with a mask and the comparison with `MAKEIP` go
-- byte by byte, since `htonl` puts masks and constants in the same order.
pub mod Ranges
use pica_pica.Common.{ℕ, ◌+◌, ◌*◌, ◌/◌, ◌-◌, ◌%◌, Bool, true, false, ◌&&◌, ◌||◌, ◌==◌}

-- `htons` and `ntohs` on a host that stores the low byte first: the two bytes change places.
abbrev pub htons : ℕ → ℕ
htons n = n % 256 * 256 + n / 256 % 256

abbrev pub ntohs : ℕ → ℕ
ntohs n = n % 256 * 256 + n / 256 % 256

pub record Ipv4 : Type 0 where
  pub b0 : ℕ
  pub b1 : ℕ
  pub b2 : ℕ
  pub b3 : ℕ

-- `b & 0xf0`.
abbrev pub high_half : ℕ → ℕ
high_half b = b - b % 16

-- `addr & PREFIX4` and so on, against an address whose other bits are 0.
abbrev pub in_prefix4 : Ipv4 → ℕ → Bool
in_prefix4 addr a = high_half addr.b0 == a

abbrev pub in_prefix8 : Ipv4 → ℕ → Bool
in_prefix8 addr a = addr.b0 == a

abbrev pub in_prefix12 : Ipv4 → ℕ → ℕ → Bool
in_prefix12 addr a b = addr.b0 == a && high_half addr.b1 == b

abbrev pub in_prefix16 : Ipv4 → ℕ → ℕ → Bool
in_prefix16 addr a b = addr.b0 == a && addr.b1 == b

-- `addr == INADDR_BROADCAST`.
abbrev pub is_broadcast : Ipv4 → Bool
is_broadcast addr = addr.b0 == 255 && addr.b1 == 255 && addr.b2 == 255 && addr.b3 == 255

unfoldable pub is_reserved_addr_ipv4 : Ipv4 → Bool
is_reserved_addr_ipv4 addr =
    in_prefix8 addr 0
    || in_prefix8 addr 10
    || in_prefix8 addr 127
    || in_prefix16 addr 169 254
    || in_prefix12 addr 172 16
    || in_prefix16 addr 192 168
    || in_prefix4 addr 224
    || in_prefix4 addr 240
    || is_broadcast addr
