-- ===== src/C2c/Direct.antt =====
-- PICA_client.c: the messages that agree on the version of the protocol between two clients and that
-- set up a direct connection between them. An address that the system is asked to connect to is tried
-- later; `connects` says whether the attempt can be started.
pub mod Outcomes
use pica_pica.Common.{
  ℕ, ◌+◌, ◌-◌, List, [], ◌∷◌, ◌++◌, Bool, true, false, ◌&&◌, ◌||◌, not, Option, none, some, ◌==◌,
  ltb, leb, if◌then◌else◌, length, take, drop,
}
use pica_pica.Proto.{initrespok, verdiffer}
use pica_pica.Proto.C2c.{
  directc2c_addrlist, directc2c_ipv4, directc2c_addrlist_item_ipv4_size, directc2c_failed,
}
use pica_pica.Msgproc.Defs.{byte, tail_len}
use pica_pica.Msgproc.Encode.{size_bytes}
use pica_pica.Netconf.{htons}
use pica_pica.Node.Wbuf.{malloc}
use pica_pica.C2c.State.{
  C2cState, c2c_active, c2c_waitingc2cprotover, c2c_waitingrep, Code, pica_ok, errnomem,
  errnotfound, c2c_established_cb, DirectState, direct_inactive, direct_connecting,
  direct_failedtoconnect, direct_waitingincoming, direct_active, DirectConnState, conn_new,
  conn_connecting, conn_failed, DirectConfig, cfg_disabled, cfg_connectonly, cfg_allowincoming,
  Listener, SockAddr, Direct, Chan, M, done, fault, ◌>>=◌, ◌>>◌, return, get, modify, when, crash,
  callback, c2c_writebuf_push,
}
use pica_pica.C2c.Files.{pushed_code}
use pica_pica.C2c.Write.{SslAnswer, Writer, Outcome, write_c2c}

abbrev pub c2cproto_ver_high : ℕ
c2cproto_ver_high = 0

abbrev pub c2cproto_ver_low : ℕ
c2cproto_ver_low = 1

abbrev pub is_protover : C2cState → Bool
is_protover c2c_waitingc2cprotover = true
is_protover _ = false

abbrev pub is_waitingrep : C2cState → Bool
is_waitingrep c2c_waitingrep = true
is_waitingrep _ = false

abbrev pub is_disabled : DirectConfig → Bool
is_disabled cfg_disabled = true
is_disabled _ = false

abbrev pub is_connectonly : DirectConfig → Bool
is_connectonly cfg_connectonly = true
is_connectonly _ = false

abbrev pub allows_incoming : DirectConfig → Bool
allows_incoming cfg_allowincoming = true
allows_incoming _ = false

abbrev pub is_inactive : DirectState → Bool
is_inactive direct_inactive = true
is_inactive _ = false

abbrev pub is_waitingincoming : DirectState → Bool
is_waitingincoming direct_waitingincoming = true
is_waitingincoming _ = false

abbrev pub is_direct : DirectState → Bool
is_direct direct_active = true
is_direct direct_connecting = true
is_direct _ = false

-- The item of a list for a listener's address: the type, the address and the port.
abbrev pub listener_item : Listener → List ℕ
listener_item l =
    directc2c_ipv4 ∷ (size_bytes 4 l.public_addr_ipv4 ++ size_bytes 2 (htons l.public_port))

-- `PICA_send_directc2caddrlist`, whose answer is always `PICA_OK`.
unfoldable pub send_directc2caddrlist : M (Unit {0})
send_directc2caddrlist c = elim c.listener [
  | none ↦ done tt c
  | some l ↦
      when (allows_incoming c.directc2c_config)
        (do
          pushed ←
              c2c_writebuf_push directc2c_addrlist
                (size_bytes 2 directc2c_addrlist_item_ipv4_size ++ listener_item l)
          when pushed (modify (λ c'. record c' { directc2c_state = direct_waitingincoming }))
              (return tt))
        (return tt) c
]

-- What both handlers do when the channel has become active.
unfoldable pub established : M ℕ
established = do
  modify (λ c. record c { state = c2c_active })
  callback c2c_established_cb
  c ← get
  when (allows_incoming c.directc2c_config) send_directc2caddrlist (return tt)
  return 1

unfoldable pub procmsg_c2cconnreq : List ℕ → ℕ → M ℕ
procmsg_c2cconnreq buf nb = do
  c ← get
  when (not (is_protover c.state)) (return 0) (
      when (byte buf 2 == c2cproto_ver_high && byte buf 3 == c2cproto_ver_low)
        (do
          pushed ← c2c_writebuf_push initrespok (79 ∷ 75 ∷ [])
          when pushed established (return 0))
        (do
          pushed ← c2c_writebuf_push verdiffer (c2cproto_ver_high ∷ c2cproto_ver_low ∷ [])
          when pushed
              (do modify (λ c'. record c' { disconnect_on_empty_write_buf = true }); return 1)
              (return 0)))

unfoldable pub procmsg_initresp_c2c : List ℕ → ℕ → M ℕ
procmsg_initresp_c2c buf nb = do
  c ← get
  when (not (is_waitingrep c.state) || not c.outgoing) (return 0)
      (when (byte buf 0 == initrespok) established (return 0))

-- The write of `process_c2c` for a channel that waits for the answer or for the version.
unfoldable pub process_waiting_write : SslAnswer → Writer → Chan → Outcome
process_waiting_write answer w c = write_c2c c.state answer w

-- The reading of the address at a position of the list, which takes the item's bytes from memory.
unfoldable pub connect_item : List ℕ → ℕ → Direct → M (Unit {0})
unfolding malloc
connect_item list pos d c =
    if byte list pos == directc2c_ipv4
    then (if ltb (length list) (pos + 7)
        then fault
        else (let (started, connects') = malloc c.connects in
            done tt (record c {
              connects = connects';
              direct = some (record d {
                addrpos = pos + directc2c_addrlist_item_ipv4_size;
                addr = record {
                  s_addr = tail_len 4 (drop (pos + 1) list);
                  sin_port = tail_len 2 (drop (pos + 5) list);
                };
                conn_state = if started then conn_connecting else conn_failed;
              });
            })))
    else done tt (record c { direct = some (record d { addrpos = pos }) })

-- `directc2c_connect_next`.
unfoldable pub directc2c_connect_next : M Code
directc2c_connect_next c = elim c.direct [
  | none ↦ fault
  | some d ↦ elim d.addrlist [
    | none ↦ fault
    | some list ↦
        (let pos = if d.addrpos == 0 then 2 else d.addrpos in
          if leb (tail_len 2 list) pos
          then done errnotfound (record c { direct = some (record d { addrpos = pos }) })
          else (connect_item list pos d >> return pica_ok) c)
  ]
]

abbrev pub set_direct : DirectState → M (Unit {0})
set_direct s = modify (λ c. record c { directc2c_state = s })

abbrev pub is_notfound : Code → Bool
is_notfound errnotfound = true
is_notfound _ = false

-- `calloc` of the structure and `malloc` of its list, which holds the message from its size on and a
-- byte 0. Whether the list is there.
unfoldable pub store_addrlist : List ℕ → M Bool
unfolding malloc
store_addrlist tail c =
    let (got, mem') = malloc c.mem in
    let (got', mem'') = malloc mem' in
    if not got
    then done false (record c { direct = none; mem = mem' })
    else (let d : Direct = record {
      is_outgoing = true;
      conn_state = conn_new;
      addrlist = if got' then some (tail ++ (0 ∷ [])) else none;
      addrpos = 0;
      addr = record { s_addr = 0; sin_port = 0 };
    } in
        done got' (record c { direct = some d; mem = mem'' }))

unfoldable pub procmsg_directc2c_addrlist : List ℕ → ℕ → M ℕ
procmsg_directc2c_addrlist buf nb = do
  c ← get
  when (is_disabled c.directc2c_config) (return 1) (
      when (not (is_inactive c.directc2c_state) && not (is_waitingincoming c.directc2c_state))
        (return 0)
        (do
          when (c.outgoing || is_connectonly c.directc2c_config) (set_direct direct_connecting)
              (return tt)
          stored ← store_addrlist (drop 2 buf)
          when (not stored || (not c.outgoing && allows_incoming c.directc2c_config)) (return 1) (do
            ret ← directc2c_connect_next
            when (is_notfound ret) (set_direct direct_failedtoconnect) (return tt)
            return 1)))

unfoldable pub procmsg_directc2c_failed : List ℕ → ℕ → M ℕ
procmsg_directc2c_failed buf nb = do
  c ← get
  when (not (is_waitingincoming c.directc2c_state) || is_disabled c.directc2c_config || c.outgoing)
      (return 0)
      (do
        ret ← directc2c_connect_next
        when (is_notfound ret) (set_direct direct_failedtoconnect) (return tt)
        set_direct direct_connecting
        return 1)

unfoldable pub procmsg_directc2c_switch : List ℕ → ℕ → M ℕ
procmsg_directc2c_switch buf nb = do
  c ← get
  when (is_disabled c.directc2c_config || not (is_direct c.directc2c_state)) (return 0)
      (do modify (λ c'. record c' { switched_to_directc2c_read = true }); return 1)

-- `PICA_send_directc2cfailed`.
unfoldable pub send_directc2cfailed : M Code
send_directc2cfailed = do
  c ← get
  pushed ← c2c_writebuf_push directc2c_failed c.random
  return (pushed_code pushed)
