-- ===== src/C2c/Direct/Outcomes.antt =====
-- PICA_client.c: an address for a direct connection reaches the peer, and messages of the peer that the
-- client does not survive.
use pica_pica.Common.{
  ℕ, ◌<◌, ◌≤◌, ◌≡◌, refl, ◌∙◌, List, [], ◌∷◌, ◌++◌, true, false, ◌&&◌, ◌||◌, not, none, some, ◌==◌,
  leb, ltb, length, drop, arith, length-append,
}
use pica_pica.Proto.{verdiffer}
use pica_pica.Proto.C2c.{directc2c_addrlist, directc2c_ipv4, directc2c_addrlist_item_ipv4_size}
use pica_pica.Msgproc.Defs.{byte, tail_len}
use pica_pica.Msgproc.Encode.{size_bytes}
use pica_pica.Netconf.{ntohs}
use pica_pica.Node.Wbuf.{malloc, wbuf_push}
use pica_pica.C2c.State.{
  c2c_waitingc2cprotover, direct_inactive, direct_connecting, direct_failedtoconnect, conn_new,
  conn_connecting, direct_waitingincoming, Listener, SockAddr, Code, M, return, when, Direct, Chan,
  done, fault, ◌>>=◌, ◌>>◌, pica_ok, chanwritebufsize,
}
use pica_pica.C2c.Write.{SslAnswer, Writer, exited, write_c2c}
use pica_pica.C2c.Transfer.Send.{c2c_writebuf_push_step, wbuf_push-enough}
use pica_pica.C2c.Direct.{
  listener_item, is_notfound, set_direct, c2cproto_ver_high, c2cproto_ver_low, is_protover,
  is_disabled, is_connectonly, allows_incoming, is_inactive, is_waitingincoming,
  send_directc2caddrlist, procmsg_c2cconnreq, process_waiting_write, procmsg_directc2c_failed,
  procmsg_directc2c_addrlist, directc2c_connect_next, connect_item, store_addrlist,
}

-- A peer that asks for another version of the protocol ends the whole process of a client that waits
-- for the version and has memory: the handler pushes its refusal, which is then to be written, and
-- keeps the state, and the function that writes exits in that state, whatever SSL_write would answer
-- and whatever the output buffer is.
pub c2cconnreq_verdiffer-exited :
    (buf : List ℕ) (nb : ℕ) (c : Chan) (answer : SslAnswer) (w : Writer)
    → c.state ≡ c2c_waitingc2cprotover
    → (byte buf 2 == c2cproto_ver_high && byte buf 3 == c2cproto_ver_low) ≡ false
    → c.mem ≡ []
    → (c' : Chan) × (procmsg_c2cconnreq buf nb c ≡ done 1 c')
      × (c'.wbuf.bytes
          ≡ c.wbuf.bytes ++ (verdiffer ∷ verdiffer ∷ c2cproto_ver_high ∷ c2cproto_ver_low ∷ []))
      × (process_waiting_write answer w c' ≡ exited)
unfolding procmsg_c2cconnreq process_waiting_write write_c2c
c2cconnreq_verdiffer-exited buf nb c answer w st ver m =
    let a : is_protover c.state ≡ true = rw st refl in
    let tail = c2cproto_ver_high ∷ c2cproto_ver_low ∷ [] in
    (
      record c {
        wbuf = (wbuf_push chanwritebufsize c.wbuf verdiffer tail []).1;
        mem = [];
        disconnect_on_empty_write_buf = true;
      },
      rw (a, ver) (rw (c2c_writebuf_push_step verdiffer tail c m, ◌>>=◌) refl),
      (wbuf_push-enough chanwritebufsize c.wbuf verdiffer tail).1,
      rw st refl,
    )

-- A report of the peer that it could not connect makes the client follow a null pointer, where the
-- channel is an incoming one that waits for a direct connection, direct connections are not
-- disabled, and the peer has sent no list of its own addresses.
pub directc2c_failed_unlisted-fault :
    (buf : List ℕ) (nb : ℕ) (c : Chan)
    → is_waitingincoming c.directc2c_state ≡ true
    → is_disabled c.directc2c_config ≡ false
    → c.outgoing ≡ false
    → c.direct ≡ none
    → procmsg_directc2c_failed buf nb c ≡ fault
unfolding procmsg_directc2c_failed directc2c_connect_next
directc2c_failed_unlisted-fault buf nb c w e o d =
    let a : (not (is_waitingincoming c.directc2c_state)
          || is_disabled c.directc2c_config
          || c.outgoing)
        ≡ false =
      rw (w, e, o) refl in
    rw a (rw (d, ◌>>=◌) refl)

-- The channel of a client that takes a list of addresses and connects at once.
pub record TakesList (c : Chan) : Type 0 where
  pub inactive : c.directc2c_state ≡ direct_inactive
  pub enabled : is_connectonly c.directc2c_config ≡ true
  pub memory : c.mem ≡ []
  pub starts : c.connects ≡ []

-- The connection that is set up for a list.
abbrev listed : List ℕ → Direct
listed tail = record {
  is_outgoing = true;
  conn_state = conn_new;
  addrlist = some (tail ++ (0 ∷ []));
  addrpos = 0;
  addr = record { s_addr = 0; sin_port = 0 };
}

abbrev with_list : List ℕ → Chan → Chan
with_list tail c = record c {
  directc2c_state = direct_connecting;
  direct = some (listed tail);
  mem = [];
}

store_addrlist_step :
    (tail : List ℕ) (c : Chan)
    → c.mem ≡ []
    → store_addrlist tail c ≡ done true (record c { direct = some (listed tail); mem = [] })
unfolding store_addrlist malloc
store_addrlist_step tail c e = rw e refl

connect_first :
    (tail : List ℕ) (c : Chan)
    → 2 < tail_len 2 (tail ++ (0 ∷ []))
    → directc2c_connect_next (with_list tail c)
      ≡ (connect_item (tail ++ (0 ∷ [])) 2 (listed tail) >> return pica_ok) (with_list tail c)
unfolding directc2c_connect_next
connect_first tail c h =
    let a : leb (tail_len 2 (tail ++ (0 ∷ []))) 2 ≡ false = ground arith in rw a refl

-- What the handler of a list comes to, where it connects at once.
abbrev after_connect : Code → M ℕ
after_connect ret = do
  when (is_notfound ret) (set_direct direct_failedtoconnect) (return tt)
  return 1

addrlist_step :
    (tail : List ℕ) (nb : ℕ) (c : Chan)
    → TakesList c
    → 2 < tail_len 2 (tail ++ (0 ∷ []))
    → procmsg_directc2c_addrlist (directc2c_addrlist ∷ directc2c_addrlist ∷ tail) nb c
      ≡ ((connect_item (tail ++ (0 ∷ [])) 2 (listed tail) >> return pica_ok) >>= after_connect)
          (with_list tail c)
unfolding procmsg_directc2c_addrlist
addrlist_step tail nb c t h =
    let a : is_disabled c.directc2c_config ≡ false = ground (arith, t.enabled) in
    let i : (not (is_inactive c.directc2c_state) && not (is_waitingincoming c.directc2c_state))
        ≡ false =
      rw t.inactive refl in
    let b : (c.outgoing || is_connectonly c.directc2c_config) ≡ true = ground (arith, t.enabled) in
    let n : (not c.outgoing && allows_incoming c.directc2c_config) ≡ false =
      ground (arith, t.enabled) in
    rw (a, i, b)
      (rw
        (
          store_addrlist_step tail (record c { directc2c_state = direct_connecting }) t.memory,
          ◌>>=◌,
        )
        (rw n (rw (connect_first tail c h, ◌>>=◌) refl)))

connect_item-short :
    (list : List ℕ) (d : Direct) (c : Chan)
    → byte list 2 ≡ directc2c_ipv4
    → length list < 9
    → connect_item list 2 d c ≡ fault
unfolding connect_item
connect_item-short list d c k s =
    let e : byte list 2 == directc2c_ipv4 ≡ true = ground arith in
    let f : ltb (length list) 9 ≡ true = ground arith in rw (e, f) refl

connect_item-whole :
    (list : List ℕ) (d : Direct) (c : Chan)
    → byte list 2 ≡ directc2c_ipv4
    → 9 ≤ length list
    → c.connects ≡ []
    → connect_item list 2 d c
      ≡ done tt (record c {
        connects = [];
        direct = some (record d {
          addrpos = 9;
          addr = record { s_addr = tail_len 4 (drop 3 list); sin_port = tail_len 2 (drop 7 list) };
          conn_state = conn_connecting;
        });
      })
unfolding connect_item malloc
connect_item-whole list d c k s o =
    let e : byte list 2 == directc2c_ipv4 ≡ true = ground arith in
    let f : ltb (length list) 9 ≡ false = ground arith in rw (e, f) (rw o refl)

-- A list of addresses whose first item is an IPv4 address, but that has fewer than its bytes, makes
-- a client that connects at once read past the memory that it has copied the list to. The size that
-- the list gives for itself is at least 3.
pub directc2c_addrlist_short-fault :
    (tail : List ℕ) (nb : ℕ) (c : Chan)
    → TakesList c
    → 2 < tail_len 2 (tail ++ (0 ∷ []))
    → byte (tail ++ (0 ∷ [])) 2 ≡ directc2c_ipv4
    → length tail < 8
    → procmsg_directc2c_addrlist (directc2c_addrlist ∷ directc2c_addrlist ∷ tail) nb c ≡ fault
directc2c_addrlist_short-fault tail nb c t l k s =
    addrlist_step tail nb c t l
    ∙ rw
        (
          connect_item-short (tail ++ (0 ∷ [])) (listed tail) (with_list tail c) k
              (omega (arith, length-append tail (0 ∷ []))),
          ◌>>=◌,
        )
        refl

connected :
    (tail : List ℕ) (c c' : Chan)
    → connect_item (tail ++ (0 ∷ [])) 2 (listed tail) (with_list tail c) ≡ done tt c'
    → ((connect_item (tail ++ (0 ∷ [])) 2 (listed tail) >> return pica_ok) >>= after_connect)
        (with_list tail c)
      ≡ done 1 c'
connected tail c c' e = rw (e, ◌>>=◌) refl

-- The message of a list of one address.
abbrev pub addrlist_tail : Listener → List ℕ
addrlist_tail a = size_bytes 2 directc2c_addrlist_item_ipv4_size ++ listener_item a

-- The address that a peer takes from the list.
abbrev taken : Listener → SockAddr
taken a = record {
  s_addr = tail_len 4 (drop 3 (addrlist_tail a ++ (0 ∷ [])));
  sin_port = tail_len 2 (drop 7 (addrlist_tail a ++ (0 ∷ [])));
}

taken-address :
    (a : Listener) → a.public_addr_ipv4 < 4294967296 → (taken a).s_addr ≡ a.public_addr_ipv4
unfolding size_bytes tail_len
taken-address a h = omega arith

taken-port : (a : Listener) → a.public_port < 65536 → ntohs (taken a).sin_port ≡ a.public_port
unfolding size_bytes tail_len
taken-port a h = omega arith

-- The address of a client's listener reaches the peer: what the client pushes, behind what it has to
-- send already, is a message that makes a peer that connects at once connect to the listener's
-- address, at the port whose number in the order of the host is the listener's port. The address has
-- 32 bits and the port 16; the client allows incoming connections and has memory, and the peer's
-- system starts the attempt.
pub directc2c_addrlist-roundtrip :
    (a : Listener) (s r : Chan) (nb : ℕ)
    → a.public_addr_ipv4 < 4294967296
    → a.public_port < 65536
    → s.listener ≡ some a
    → allows_incoming s.directc2c_config ≡ true
    → s.mem ≡ []
    → TakesList r
    → let msg = directc2c_addrlist ∷ directc2c_addrlist ∷ addrlist_tail a in
      (s' : Chan) × (r' : Chan) × (d : Direct) × (send_directc2caddrlist s ≡ done tt s')
      × (s'.wbuf.bytes ≡ s.wbuf.bytes ++ msg)
      × (procmsg_directc2c_addrlist msg nb r ≡ done 1 r')
      × (r'.direct ≡ some d)
      × (d.conn_state ≡ conn_connecting)
      × (d.addr.s_addr ≡ a.public_addr_ipv4)
      × (ntohs d.addr.sin_port ≡ a.public_port)
unfolding send_directc2caddrlist size_bytes tail_len
directc2c_addrlist-roundtrip a s r nb wide short l allows m t =
    let tail = addrlist_tail a in
    (
      record s {
        wbuf = (wbuf_push chanwritebufsize s.wbuf directc2c_addrlist tail []).1;
        mem = [];
        directc2c_state = direct_waitingincoming;
      },
      _,
      _,
      rw (l, allows)
          (rw
            (
              c2c_writebuf_push_step directc2c_addrlist tail (record s { listener = some a }) m,
              ◌>>=◌,
            )
            refl),
      (wbuf_push-enough chanwritebufsize s.wbuf directc2c_addrlist tail).1,
      addrlist_step tail nb r t (omega arith)
          ∙ connected tail r _ (
              connect_item-whole (tail ++ (0 ∷ [])) (listed tail) (with_list tail r) refl
                (omega arith) t.starts),
      refl,
      refl,
      taken-address a wide,
      taken-port a short,
    )
