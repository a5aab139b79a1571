-- ===== src/C2n/Channels.antt =====
-- PICA_client.c: the list of the channels of a connection to a node, `chan_list_head` and
-- `chan_list_end`, with the pointers `next` and `prev` of its structures. The memory gives the
-- structure at an address, or none where it was freed. A function gives none where it uses memory that
-- was freed or follows a null pointer, and where its fuel is used up.
pub mod Segments
pub mod Close
pub mod Add
pub mod Loop
use pica_pica.Common.{
  ℕ, zero, suc, List, [], ◌∷◌, Bool, true, false, ◌&&◌, Option, none, some, ◌==◌, if◌then◌else◌,
}
use pica_pica.Node.Ids.{id_eq}
use pica_pica.C2c.State.{DirectState, is_ok}
use pica_pica.C2c.Direct.{is_waitingincoming}
use pica_pica.C2c.Handshake.{Trust, Conn, Answers, Ran, ran, crashed, ended}
use pica_pica.C2c.Handshake.Process.{process_c2c}

pub record Cell : Type 0 where
  pub conn : Conn
  pub next : Option ℕ
  pub prev : Option ℕ

-- The fields of `struct PICA_c2n` that make up the list, and the memory.
pub record Channels : Type 0 where
  pub cells : ℕ → Option Cell
  pub chan_list_head : Option ℕ
  pub chan_list_end : Option ℕ

unfoldable pub update : ℕ → Option Cell → (ℕ → Option Cell) → ℕ → Option Cell
update p v h q = if q == p then v else h q

-- `p->next = q` and `p->prev = q`.
unfoldable pub set_next : ℕ → Option ℕ → Channels → Option Channels
set_next p q s = elim (s.cells p) [
  | none ↦ none
  | some c ↦ some (record s { cells = update p (some (record c { next = q })) s.cells })
]

unfoldable pub set_prev : ℕ → Option ℕ → Channels → Option Channels
set_prev p q s = elim (s.cells p) [
  | none ↦ none
  | some c ↦ some (record s { cells = update p (some (record c { prev = q })) s.cells })
]

-- `q ? q->next = … : s->chan_list_head = …`, as `PICA_close_c2c` writes it.
unfoldable pub link_behind : Option ℕ → Option ℕ → Channels → Option Channels
link_behind none next s = some (record s { chan_list_head = next })
link_behind (some q) next s = set_next q next s

unfoldable pub link_before : Option ℕ → Option ℕ → Channels → Option Channels
link_before none prev s = some (record s { chan_list_end = prev })
link_before (some q) prev s = set_prev q prev s

abbrev pub and_then {ℓ} : {A B : Type ℓ} → Option A → (A → Option B) → Option B
and_then none k = none
and_then (some a) k = k a

-- The part of `c2n_alloc_c2c` that links the new structure, at an address that calloc has given.
unfoldable pub link_channel : ℕ → Conn → Channels → Option Channels
link_channel p c s = elim s.chan_list_head [
  | none ↦ some record {
    cells = update p (some record { conn = c; next = none; prev = none }) s.cells;
    chan_list_head = some p;
    chan_list_end = some p;
  }
  | some first ↦ and_then s.chan_list_end (λ e. and_then (set_next e (some p) s) (λ s'.
      some (record s' {
        cells = update p (some record { conn = c; next = none; prev = some e }) s'.cells;
        chan_list_end = some p;
      })))
]

-- The loop of `PICA_close_c2c`, which looks for the channel and takes it out of the list.
unfoldable pub unlink_loop : ℕ → ℕ → Option ℕ → Channels → Option Channels
unlink_loop fuel p none s = some s
unlink_loop zero p (some ipt) s = none
unlink_loop (suc fuel) p (some ipt) s = and_then (s.cells ipt) (λ c.
    let rest = unlink_loop fuel p c.next s in
    if ipt == p then and_then (link_before c.next c.prev s) (link_behind c.prev c.next) else rest)

-- `free`.
abbrev pub free : ℕ → Channels → Channels
free p s = record s { cells = update p none s.cells }

-- `PICA_close_c2c`.
unfoldable pub close_c2c : ℕ → ℕ → Channels → Option Channels
close_c2c fuel p s =
    and_then (s.cells p)
      (λ c. and_then (unlink_loop fuel p s.chan_list_head s) (λ s'. some (free p s')))

-- The loop of `PICA_close_c2n`.
unfoldable pub close_all : ℕ → Channels → Option Channels
close_all zero s = elim s.chan_list_head [ none ↦ some s | some p ↦ none ]
close_all (suc fuel) s = elim s.chan_list_head [
  | none ↦ some s
  | some p ↦ and_then (close_c2c (suc fuel) p s) (close_all fuel)
]

-- `find_matching_c2c`, of the id in the certificate of a direct connection.
unfoldable pub find_matching_c2c : ℕ → List ℕ → Option ℕ → Channels → Option (Option ℕ)
find_matching_c2c fuel id none s = some none
find_matching_c2c zero id (some p) s = none
find_matching_c2c (suc fuel) id (some p) s = and_then (s.cells p) (λ c.
    let rest = find_matching_c2c fuel id c.next s in
    if is_waitingincoming c.conn.chan.directc2c_state && id_eq id c.conn.peer_id
    then some (some p)
    else rest)

-- The loop of `PICA_event_loop` over the channels, with what is ready for each: a channel that
-- `process_c2c` fails for is closed when its `next` has been read.
unfoldable pub process_channels :
    ℕ → ℕ → Trust → (ℕ → Answers) → Option ℕ → Channels → Option Channels
process_channels walk fuel t ready none s = some s
process_channels walk zero t ready (some p) s = none
process_channels walk (suc fuel) t ready (some p) s = and_then (s.cells p) (λ c.
    elim (process_c2c t (ready p) c.conn) [
      | ran ret c' ↦
          (let s' = record s { cells = update p (some (record c { conn = c' })) s.cells } in
            if is_ok ret
            then process_channels walk fuel t ready c.next s'
            else and_then (close_c2c walk p s') (process_channels walk fuel t ready c.next))
      | crashed ↦ none
      | ended ↦ none
    ])
