-- ===== src/Proto.antt =====
-- PICA_proto.h: the identifiers and the sizes of the messages.
pub mod C2c
use pica_pica.Common.{ℕ}

abbrev pub ver_high : ℕ
ver_high = 0

abbrev pub ver_low : ℕ
ver_low = 5

abbrev pub initreq : ℕ
initreq = 0xca

abbrev pub initrespok : ℕ
initrespok = 0x01

abbrev pub verdiffer : ℕ
verdiffer = 0x02

abbrev pub connreqoutg : ℕ
connreqoutg = 0x03

abbrev pub connreqinc : ℕ
connreqinc = 0x04

abbrev pub notfound : ℕ
notfound = 0x05

abbrev pub connallow : ℕ
connallow = 0x06

abbrev pub found : ℕ
found = 0x07

abbrev pub conndeny : ℕ
conndeny = 0x08

abbrev pub clnodelistreq : ℕ
clnodelistreq = 0x09

abbrev pub clnodelist : ℕ
clnodelist = 0x0a

abbrev pub connid : ℕ
connid = 0x20

abbrev pub multilogin : ℕ
multilogin = 0x0e

abbrev pub pingreq : ℕ
pingreq = 0x68

abbrev pub pingrep : ℕ
pingrep = 0x69

abbrev pub nodeconnreq : ℕ
nodeconnreq = 0xcb

abbrev pub newnode_ipv4 : ℕ
newnode_ipv4 = 0xa0

abbrev pub newnode_ipv6 : ℕ
newnode_ipv6 = 0xa1

abbrev pub newnode_dns : ℕ
newnode_dns = 0xa2

abbrev pub nodelist : ℕ
nodelist = 0xa4

abbrev pub nodelistreq : ℕ
nodelistreq = 0x90

abbrev pub search : ℕ
search = 0xa5

abbrev pub n2nfound : ℕ
n2nfound = 0xa8

abbrev pub n2nfoundcache : ℕ
n2nfoundcache = 0xa9

abbrev pub n2nconnreqoutg : ℕ
n2nconnreqoutg = 0xaa

abbrev pub n2nallow : ℕ
n2nallow = 0xab

abbrev pub n2nnotfound : ℕ
n2nnotfound = 0xb8

abbrev pub n2nmsg : ℕ
n2nmsg = 0xd0

abbrev pub initreq_size : ℕ
initreq_size = 4

abbrev pub initrespok_size : ℕ
initrespok_size = 4

abbrev pub verdiffer_size : ℕ
verdiffer_size = 4

abbrev pub connreqoutg_size : ℕ
connreqoutg_size = 30

abbrev pub connallow_size : ℕ
connallow_size = 30

abbrev pub conndeny_size : ℕ
conndeny_size = 30

abbrev pub clnodelistreq_size : ℕ
clnodelistreq_size = 4

abbrev pub connid_size : ℕ
connid_size = 58

abbrev pub pingreq_size : ℕ
pingreq_size = 4

abbrev pub pingrep_size : ℕ
pingrep_size = 4

abbrev pub nodeconnreq_size : ℕ
nodeconnreq_size = 4

abbrev pub newnode_ipv4_size : ℕ
newnode_ipv4_size = 8

abbrev pub nodelist_item_ipv4_size : ℕ
nodelist_item_ipv4_size = 7

abbrev pub nodelist_item_ipv6_size : ℕ
nodelist_item_ipv6_size = 19

abbrev pub nodelistreq_size : ℕ
nodelistreq_size = 4

abbrev pub search_size : ℕ
search_size = 30

abbrev pub n2nfound_size : ℕ
n2nfound_size = 30

abbrev pub n2nconnreqoutg_size : ℕ
n2nconnreqoutg_size = 58

abbrev pub n2nallow_size : ℕ
n2nallow_size = 58

abbrev pub n2nnotfound_size : ℕ
n2nnotfound_size = 58

abbrev pub n2nmsg_maxdatasize : ℕ
n2nmsg_maxdatasize = 65476
