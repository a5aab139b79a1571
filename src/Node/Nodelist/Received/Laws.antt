-- ===== src/Node/Nodelist/Received/Laws.antt =====
-- PICA_node.c: what `procmsg_NODELIST` reads of the list that `procmsg_NODELISTREQ` builds.
use pica_pica.Common.{
  map, length-map, Bool-cases, inl, inr, sym, ◌*◌, ◌%◌, ◌/◌, ℕ, zero, suc, ◌+◌, ◌<◌, ◌≤◌, ◌≡◌, ◌≢◌,
  refl, ◌∙◌, ap, List, [], ◌∷◌, ◌++◌, Bool, true, false, ◌&&◌, Option, none, some, ◌==◌, ltb,
  if◌then◌else◌, length, drop, arith, length-append,
}
use pica_pica.Proto.{newnode_ipv4}
use pica_pica.Msgproc.Defs.{byte, tail_len}
use pica_pica.Msgproc.Encode.{size_bytes}
use pica_pica.Node.Nodelist.{Config, item}
use pica_pica.Node.Nodelist.Bounds.{length-item}
use pica_pica.Node.Nodelist.Received.{
  finished, running, bytes_of, skip_save, saving, read_item, nodelist_items,
}
use pica_pica.Netconf.{htons, ntohs, Ipv4, is_reserved_addr_ipv4}
use pica_pica.Netconf.Ranges.{Reserved, is_reserved_addr_ipv4-Reserved}
use mathlib.Core.List.{append_assoc, append-nil}

-- A list of nodes, as a message has it.
unfoldable pub items : List (ℕ × ℕ) → List ℕ
items [] = []
items (a ∷ as') = item a ++ items as'

-- Addresses and ports of 32 and 16 bits.
unfoldable pub fit : List (ℕ × ℕ) → Bool
fit [] = true
fit ((addr, port) ∷ as') = ltb addr 4294967296 && ltb port 65536 && fit as'

-- An address and a port, as they are written in text.
pub record Entry : Type 0 where
  pub ip : Ipv4
  pub port : ℕ

-- The four bytes as one number of the host, the first byte lowest.
abbrev pub number : Ipv4 → ℕ
number a = a.b0 + 256 * a.b1 + 65536 * a.b2 + 16777216 * a.b3

-- What a `struct PICA_nodeaddr_ipv4` has for an entry.
abbrev pub wire : Entry → ℕ × ℕ
wire e = (number e.ip, htons e.port)

-- Four bytes and a port of 16 bits.
unfoldable pub Fits : List Entry → Type 0
Fits [] = Unit
Fits (e ∷ es) =
    (e.ip.b0 < 256)
    × (e.ip.b1 < 256)
    × (e.ip.b2 < 256)
    × (e.ip.b3 < 256)
    × (e.port < 65536)
    × Fits es

-- Which addresses and ports a node keeps of those that it receives: all in their order, but for the
-- reserved ones where the configuration turns them away.
pub data Keeps (cfg : Config) : List Entry → List (ℕ × ℕ) → Type 0 where
  keeps_none : Keeps cfg [] []
  keeps :
      {e : Entry} {es : List Entry} {kept : List (ℕ × ℕ)}
      → (cfg.disable_reserved_addrs ≡ true → ¬ Reserved e.ip)
      → Keeps cfg es kept
      → Keeps cfg (e ∷ es) ((number e.ip, e.port) ∷ kept)
  turns_away :
      {e : Entry} {es : List Entry} {kept : List (ℕ × ℕ)}
      → cfg.disable_reserved_addrs ≡ true
      → Reserved e.ip
      → Keeps cfg es kept
      → Keeps cfg (e ∷ es) kept

drop-item : (a : ℕ × ℕ) (rest : List ℕ) → drop 7 (item a ++ rest) ≡ rest
unfolding item size_bytes
drop-item (addr, port) rest = refl

byte-item : (a : ℕ × ℕ) (rest : List ℕ) → byte (item a ++ rest) 0 ≡ newnode_ipv4
unfolding item
byte-item (addr, port) rest = refl

read_item-item :
    (addr port : ℕ) (rest : List ℕ)
    → addr < 4294967296
    → port < 65536
    → read_item (item (addr, port) ++ rest) ≡ (addr, port)
unfolding item size_bytes tail_len
read_item-item addr port rest h k = ground arith

long-item : (a : ℕ × ℕ) (rest : List ℕ) → length (item a ++ rest) ≡ 7 + length rest
long-item a rest = omega (arith, length-append (item a) rest, length-item a)

length-items : (as' : List (ℕ × ℕ)) → length as' ≤ length (items as')
unfolding items
length-items [] = omega arith
length-items (a ∷ as') = omega (arith, length-items as', long-item a (items as'))

-- What the loop does at an item that is there whole.
items_step :
    (fuel : ℕ) (cfg : Config) (first : Bool) (addr port : ℕ) (rest : List ℕ)
    (attached : Option (ℕ × ℕ)) (saved : List (ℕ × ℕ))
    → addr < 4294967296
    → port < 65536
    → nodelist_items (suc fuel) cfg first (item (addr, port) ++ rest) attached saved ≡ (
        if first
        then nodelist_items fuel cfg false rest (some (addr, port)) saved
        else nodelist_items fuel cfg false rest attached (saving cfg saved (addr, port)))
unfolding nodelist_items
items_step fuel cfg first addr port rest attached saved h k =
    let long = long-item (addr, port) rest in
    let some_left : (length (item (addr, port) ++ rest) == 0) ≡ false = ground (arith, long) in
    let whole : ltb (length (item (addr, port) ++ rest)) 7 ≡ false = ground (arith, long) in
    rw (some_left, whole, byte-item (addr, port) rest, drop-item (addr, port) rest)
      (ap
        (λ a.
          if first
          then nodelist_items fuel cfg false rest (some a) saved
          else nodelist_items fuel cfg false rest attached (saving cfg saved a))
        (read_item-item addr port rest h k))

bytes_of-number :
    (a : Ipv4) → a.b0 < 256 → a.b1 < 256 → a.b2 < 256 → a.b3 < 256 → bytes_of (number a) ≡ a
bytes_of-number a h0 h1 h2 h3 =
    let p0 : number a % 256 ≡ a.b0 = omega arith in
    let p1 : number a / 256 % 256 ≡ a.b1 = omega arith in
    let p2 : number a / 65536 % 256 ≡ a.b2 = omega arith in
    let p3 : number a / 16777216 % 256 ≡ a.b3 = omega arith in rw (p0, p1, p2, p3) refl

ntohs-htons : (p : ℕ) → p < 65536 → ntohs (htons p) ≡ p
ntohs-htons p h = omega arith

skip_save-wire :
    (cfg : Config) (e : Entry)
    → e.ip.b0 < 256
    → e.ip.b1 < 256
    → e.ip.b2 < 256
    → e.ip.b3 < 256
    → (b : Bool) → skip_save cfg (wire e) ≡ b
    → (cfg.disable_reserved_addrs && is_reserved_addr_ipv4 e.ip) ≡ b
skip_save-wire cfg e h0 h1 h2 h3 b s =
    sym (
      ap (λ (a : Ipv4). cfg.disable_reserved_addrs && is_reserved_addr_ipv4 a)
        (bytes_of-number e.ip h0 h1 h2 h3))
    ∙ s

items_saved :
    (es : List Entry) (fuel : ℕ) (cfg : Config) (attached : Option (ℕ × ℕ)) (saved : List (ℕ × ℕ))
    → length es < fuel
    → Fits es
    → (kept : List (ℕ × ℕ)) × Keeps cfg es kept
      × (nodelist_items fuel cfg false (items (map wire es)) attached saved
          ≡ finished attached (saved ++ kept))
unfolding items Fits nodelist_items
items_saved es zero cfg attached saved f h = elim f [ ]
items_saved [] (suc fuel) cfg attached saved f h =
    ([], keeps_none, ap (finished attached) (sym (append-nil saved)))
items_saved (e ∷ es) (suc fuel) cfg attached saved f (h0, h1, h2, h3, hp, h) =
    let (tested, turned) = is_reserved_addr_ipv4-Reserved e.ip h0 in
    let first =
      items_step fuel cfg false (number e.ip) (htons e.port) (items (map wire es)) attached saved
        (omega arith) (omega arith) in
    elim (Bool-cases (skip_save cfg (wire e))) [
      | inl skip ↦
          let (kept, k, e') = items_saved es fuel cfg attached saved (omega arith) h in
          let off = skip_save-wire cfg e h0 h1 h2 h3 true skip in
          (kept, turns_away (ground arith) (tested (ground arith)) k, first ∙ rw skip e')
      | inr save ↦
          let here : ℕ × ℕ = (number e.ip, ntohs (htons e.port)) in
          let (kept, k, e') =
            items_saved es fuel cfg attached (saved ++ (here ∷ [])) (omega arith) h in
          let off = skip_save-wire cfg e h0 h1 h2 h3 false save in
          (
            (number e.ip, e.port) ∷ kept,
            keeps (λ on r. let t = turned r in ground arith) k,
            first
                ∙ rw save (
                    e'
                    ∙ ap (finished attached) (
                        append_assoc saved (here ∷ []) kept
                        ∙ ap (λ (p : ℕ). saved ++ ((number e.ip, p) ∷ kept))
                            (ntohs-htons e.port hp))),
          )
    ]

-- A node that receives a list of nodes attaches the first address to its sender and saves the
-- others, in their order and with their ports as numbers of the host, but for the reserved ones where
-- the configuration turns them away: the loop ends, and reads every item that the sender wrote,
-- whatever the list's length. Addresses have four bytes, ports 16 bits.
pub nodelist_items-items :
    (cfg : Config) (e : Entry) (es : List Entry)
    → Fits (e ∷ es)
    → (kept : List (ℕ × ℕ)) × Keeps cfg es kept
      × (nodelist_items
            (suc (length (items (map wire (e ∷ es)))))
            cfg
            true
            (items (map wire (e ∷ es)))
            none
            []
          ≡ finished (some (wire e)) kept)
unfolding items Fits
nodelist_items-items cfg e es (h0, h1, h2, h3, hp, h) =
    let rest = map wire es in
    let fuel = length (item (wire e) ++ items rest) in
    let (kept, k, e') =
      items_saved es fuel cfg (some (wire e)) []
        (omega (arith, long-item (wire e) (items rest), length-items rest, length-map wire es)) h in
    (
      kept,
      k,
      items_step fuel cfg true (number e.ip) (htons e.port) (items rest) none [] (omega arith)
            (omega arith)
          ∙ e',
    )

-- A list whose first item is of another type than an IPv4 address keeps the loop going for ever.
pub nodelist_items_diverges :
    (fuel : ℕ) (cfg : Config) (x : ℕ) (rest : List ℕ)
    → x ≢ newnode_ipv4
    → nodelist_items fuel cfg true (x ∷ rest) none [] ≡ running
unfolding nodelist_items
nodelist_items_diverges zero cfg x rest h = refl
nodelist_items_diverges (suc fuel) cfg x rest h =
    ground (arith, nodelist_items_diverges fuel cfg x rest h)
