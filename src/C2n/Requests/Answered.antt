-- ===== src/C2n/Requests/Answered.antt =====
-- PICA_client.c: what a client does with the node's answer to a request for a channel.
use pica_pica.Common.{
  ℕ, suc, ◌<◌, ◌≤◌, ◌≡◌, refl, ap, ◌∙◌, subst, List, [], ◌∷◌, ◌++◌, true, none, some, if◌then◌else◌,
  arith, inl, inr, Bool-cases, length, length-append,
}
use mathlib.Core.List.{append-nil}
use pica_pica.Proto.{connreqoutg}
use pica_pica.Node.Ids.{id_eq, first_id, memcmp_refl}
use pica_pica.Node.Wbuf.{wbuf_push, malloc}
use pica_pica.C2c.State.{Code, pica_ok, is_ok}
use pica_pica.C2c.Transfer.Send.{wbuf_push-enough}
use pica_pica.C2c.Handshake.{Conn, Answers, ConnectRet, ran, c2c_start}
use pica_pica.C2c.Handshake.Establish.{c2n_alloc_c2c}
use pica_pica.C2n.Channels.{Cell, Channels, close_c2c}
use pica_pica.C2n.Channels.Segments.{Entry, first, last_of, Lists}
use pica_pica.C2n.Channels.Close.{cell_of, close_c2c-Lists}
use pica_pica.C2n.Channels.Add.{link_channel-Lists}
use pica_pica.C2n.Channels.Loop.{conn_replaced, rewritten, stays}
use pica_pica.C2n.Requests.{
  NodeConn, was_notfound, was_failed, is_connected, Handled, handled, and_next, put_list,
  connwritebufsize, c2n_writebuf_push, alloc_channel, new_c2c, last_for, with_last, close_notfound,
  procmsg_notfound, start_channel, start_found, procmsg_found,
}
use pica_pica.C2n.Requests.Last.{others, last_for_one, last_for_nothing}

with_last_one :
    (fuel : ℕ) (id : List ℕ) (k : ℕ → NodeConn → Handled ℕ) (s : NodeConn) (p : ℕ)
    → last_for fuel id s.list.chan_list_end s.list ≡ some (some p)
    → with_last fuel id k s ≡ k p s
unfolding with_last
with_last_one fuel id k s p e = rw (e, with_last) refl

with_last_nothing :
    (fuel : ℕ) (id : List ℕ) (k : ℕ → NodeConn → Handled ℕ) (s : NodeConn)
    → last_for fuel id s.list.chan_list_end s.list ≡ some none
    → with_last fuel id k s ≡ handled 0 s
unfolding with_last
with_last_nothing fuel id k s e = rw (e, with_last) refl

length_front : (xs ys : List Entry) (x : Entry) → suc (length xs) ≤ length (xs ++ (x ∷ ys))
length_front xs ys x = omega (arith, length-append xs (x ∷ ys))

-- NOTFOUND closes the last channel of the list that is for the peer, and no other, and the application
-- is told of the peer; where no channel is for the peer, nothing changes and the message is refused.
-- The fuel is the number of channels.
pub procmsg_notfound-Lists :
    (fuel : ℕ) (buf : List ℕ) (s : NodeConn) (xs ys : List Entry) (x : Entry)
    → Lists s.list (xs ++ (x ∷ ys))
    → id_eq x.1.peer_id (first_id buf) ≡ true
    → others (first_id buf) ys ≡ true
    → length (xs ++ (x ∷ ys)) ≤ fuel
    → (s' : NodeConn) × (procmsg_notfound fuel buf s ≡ handled 1 s')
      × Lists s'.list (xs ++ ys)
      × (s'.told ≡ s.told ++ (was_notfound (first_id buf) ∷ []))
unfolding procmsg_notfound close_notfound
procmsg_notfound-Lists fuel buf s xs ys (p, c) h e o l =
    let id = first_id buf in
    let (l', f, g, h') =
      close_c2c-Lists fuel s.list xs ys p c h (omega (arith, length_front xs ys (p, c))) in
    (
      record s { list = l'; told = s.told ++ (was_notfound id ∷ []) },
      with_last_one fuel id (close_notfound fuel id) s p
            (last_for_one fuel id s.list xs ys (p, c) h e o l)
          ∙ rw (f, put_list) refl,
      h',
      refl,
    )

pub procmsg_notfound_unknown :
    (fuel : ℕ) (buf : List ℕ) (s : NodeConn) (xs : List Entry)
    → Lists s.list xs
    → others (first_id buf) xs ≡ true
    → length xs ≤ fuel
    → procmsg_notfound fuel buf s ≡ handled 0 s
unfolding procmsg_notfound
procmsg_notfound_unknown fuel buf s xs h o l =
    with_last_nothing fuel (first_id buf) (close_notfound fuel (first_id buf)) s
      (last_for_nothing fuel (first_id buf) s.list xs h o l)

abbrev with_conn : Channels → ℕ → Cell → Conn → Channels
with_conn l p cell c' = rewritten p c' cell l

start_step :
    (fuel : ℕ) (a : Answers) (r : ConnectRet) (p : ℕ) (s : NodeConn) (cell : Cell) (ret : Code)
    (c' : Conn)
    → s.list.cells p ≡ some cell
    → c2c_start a r cell.conn ≡ ran ret c'
    → start_channel fuel a r p s ≡ (
        if is_ok ret
        then handled ret (record s { list = with_conn s.list p cell c' })
        else put_list ret
            (close_c2c fuel p (with_conn s.list p cell c'))
            (record s { told = s.told ++ (was_failed cell.conn.peer_id ∷ []) }))
unfolding start_channel
start_step fuel a r p s cell ret c' e f = rw (e, start_channel) (rw f refl)

pub started-Lists :
    (fuel : ℕ) (a : Answers) (r : ConnectRet) (s : NodeConn) (xs ys : List Entry) (p : ℕ) (c : Conn)
    (ret : Code) (c' : Conn)
    → Lists s.list (xs ++ ((p, c) ∷ ys))
    → c2c_start a r c ≡ ran ret c'
    → length xs < fuel
    → (s' : NodeConn) × (start_channel fuel a r p s ≡ handled ret s')
      × Lists s'.list (xs ++ stays ret (p, c') ys)
started-Lists fuel a r s xs ys p c ret c' h e l =
    let cell : Cell = record { conn = c; next = first ys none; prev = last_of none xs } in
    let l1 = with_conn s.list p cell c' in
    let h1 = conn_replaced s.list xs ys p c c' h in
    let f = start_step fuel a r p s cell ret c' (cell_of s.list xs ys p c h) e in
    elim (Bool-cases (is_ok ret)) [
      | inl k ↦ (record s { list = l1 }, f ∙ rw k refl, rw k h1)
      | inr k ↦
          (let (l2, g, i, h2) = close_c2c-Lists fuel l1 xs ys p c' h1 l in
            (
              record s { list = l2; told = s.told ++ (was_failed c.peer_id ∷ []) },
              f ∙ rw k (rw (g, put_list) refl),
              rw k h2,
            ))
    ]

-- FOUND starts the last channel of the list that is for the peer, and no other: where the start
-- succeeds, the channel keeps its place; where it fails, the channel is closed and the message is
-- refused. The others stay in their order. The fuel is the number of channels.
pub procmsg_found-Lists :
    (fuel : ℕ) (a : Answers) (r : ConnectRet) (buf : List ℕ) (s : NodeConn) (xs ys : List Entry)
    (x : Entry) (ret : Code) (c' : Conn)
    → Lists s.list (xs ++ (x ∷ ys))
    → id_eq x.1.peer_id (first_id buf) ≡ true
    → others (first_id buf) ys ≡ true
    → length (xs ++ (x ∷ ys)) ≤ fuel
    → c2c_start a r x.1 ≡ ran ret c'
    → (s' : NodeConn) × (procmsg_found fuel a r buf s ≡ handled (if is_ok ret then 1 else 0) s')
      × Lists s'.list (xs ++ stays ret (x.0, c') ys)
unfolding procmsg_found start_found
procmsg_found-Lists fuel a r buf s xs ys (p, c) ret c' h e o l f =
    let id = first_id buf in
    let (s', g, h') =
      started-Lists fuel a r s xs ys p c ret c' h f (omega (arith, length_front xs ys (p, c))) in
    (
      s',
      with_last_one fuel id (start_found fuel a r) s p
            (last_for_one fuel id s.list xs ys (p, c) h e o l)
          ∙ rw (g, and_next) refl,
      h',
    )

-- The request of `PICA_new_c2c`, where the connection to the node is there and no allocation fails.
new_c2c_step :
    (p now : ℕ) (peer : List ℕ) (s : NodeConn) (xs : List Entry)
    → Lists s.list xs
    → s.list.cells p ≡ none
    → is_connected s.state ≡ true
    → s.mem ≡ []
    → (s' : NodeConn) × (new_c2c p now peer s ≡ handled pica_ok s')
      × Lists s'.list (xs ++ ((p, c2n_alloc_c2c s.own peer true now) ∷ []))
      × (s'.wbuf.bytes ≡ s.wbuf.bytes ++ (connreqoutg ∷ connreqoutg ∷ peer))
      × (s'.told ≡ s.told)
unfolding new_c2c alloc_channel c2n_writebuf_push malloc
new_c2c_step p now peer s xs h e k m =
    let (l', f, h') = link_channel-Lists p (c2n_alloc_c2c s.own peer true now) s.list xs h e in
    let (enough, bytes) = wbuf_push-enough connwritebufsize s.wbuf connreqoutg peer in
    (
      record s {
        list = l';
        wbuf = (wbuf_push connwritebufsize s.wbuf connreqoutg peer []).1;
        mem = [];
      },
      rw (k, m) (rw (f, put_list) (rw enough refl)),
      h',
      bytes,
      refl,
    )

-- A request for a channel that the node answers with NOTFOUND leaves the list of channels as it was, and
-- the application is told of the peer: the request is sent to the node, and the channel that was made
-- for it is the one that is closed, whatever other channels there are for the same peer. The connection
-- to the node is there, no allocation fails, and the structure is given an address that was free.
pub new_c2c-notfound :
    (fuel p now : ℕ) (buf : List ℕ) (s : NodeConn) (xs : List Entry)
    → Lists s.list xs
    → s.list.cells p ≡ none
    → is_connected s.state ≡ true
    → s.mem ≡ []
    → length xs < fuel
    → (s1 s2 : NodeConn) × (new_c2c p now (first_id buf) s ≡ handled pica_ok s1)
      × (s1.wbuf.bytes ≡ s.wbuf.bytes ++ (connreqoutg ∷ connreqoutg ∷ first_id buf))
      × (procmsg_notfound fuel buf s1 ≡ handled 1 s2)
      × Lists s2.list xs
      × (s2.told ≡ s.told ++ (was_notfound (first_id buf) ∷ []))
unfolding c2n_alloc_c2c
new_c2c-notfound fuel p now buf s xs h e k m l =
    let id = first_id buf in
    let c = c2n_alloc_c2c s.own id true now in
    let (s1, f, h1, b, t) = new_c2c_step p now id s xs h e k m in
    let (s2, g, h2, u) =
      procmsg_notfound-Lists fuel buf s1 xs [] (p, c) h1 (rw (id_eq, memcmp_refl id) refl) refl
        (omega (arith, length-append xs ((p, c) ∷ []))) in
    (
      s1,
      s2,
      f,
      b,
      g,
      subst (Lists s2.list) (append-nil xs) h2,
      u ∙ ap (λ o. o ++ (was_notfound id ∷ [])) t,
    )
