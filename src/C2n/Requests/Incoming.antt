-- ===== src/C2n/Requests/Incoming.antt =====
-- PICA_client.c: a caller that the application accepts, in `procmsg_CONNREQINC`, whose loop writes until
-- the output buffer is empty.
use pica_pica.Common.{
  ℕ, zero, suc, ◌≡◌, refl, ap, ◌∙◌, List, [], ◌∷◌, ◌++◌, true, false, none, ◌==◌, arith, length,
  length-append, take, replicate, take_whole, length-drop,
}
use mathlib.Core.List.{append-nil}
use pica_pica.Proto.{connallow}
use pica_pica.Node.Ids.{first_id}
use pica_pica.Node.Wbuf.{wbuf_push, malloc}
use pica_pica.C2c.State.{pica_ok}
use pica_pica.C2c.Transfer.Send.{wbuf_push-enough}
use pica_pica.C2c.Write.{want_io, write_ssl, asked}
use pica_pica.C2c.Handshake.{Answers, ConnectRet}
use pica_pica.C2c.Handshake.Establish.{c2n_alloc_c2c}
use pica_pica.C2n.Channels.Segments.{Entry, Lists}
use pica_pica.C2n.Channels.Add.{link_channel-Lists}
use pica_pica.C2n.Requests.{
  NodeConn, asked_accept, handled, spinning, and_next, put_list, connwritebufsize,
  c2n_writebuf_push, alloc_channel, write_c2n, write_all, accept_caller, procmsg_connreqinc,
}

whole : (bytes : List ℕ) → take (length bytes) bytes ≡ bytes
whole bytes = take_whole (length bytes) bytes (omega (arith, length-drop (length bytes) bytes))

write_waits :
    (s : NodeConn)
    → (length s.wbuf.bytes == 0) ≡ false
    → write_c2n want_io s
      ≡ handled pica_ok
          (record s { sslbytestowrite = asked (length s.wbuf.bytes) s.sslbytestowrite })
unfolding write_c2n write_ssl
write_waits s e = rw e (
    ap
      (λ (b : List ℕ). handled pica_ok (record s {
        wbuf = record s.wbuf { bytes = b };
        sslbytestowrite = asked (length s.wbuf.bytes) s.sslbytestowrite;
        sent = s.sent ++ [];
      }))
      (whole s.wbuf.bytes)
    ∙ ap
        (λ (b : List ℕ).
          handled pica_ok (record s {
            sslbytestowrite = asked (length s.wbuf.bytes) s.sslbytestowrite;
            sent = b;
          }))
        (append-nil s.sent))

write_all_spins :
    (n : ℕ) (s : NodeConn)
    → (length s.wbuf.bytes == 0) ≡ false
    → write_all (replicate n want_io) s ≡ spinning
unfolding write_all
write_all_spins zero s e = refl
write_all_spins (suc n) s e =
    let s' = record s { sslbytestowrite = asked (length s.wbuf.bytes) s.sslbytestowrite } in
    rw (write_waits s e, and_next) (rw e (write_all_spins n s' e))

-- While SSL_write asks to be called again, the loop of CONNREQINC goes on: a node that sends a request
-- and takes no bytes keeps a client that accepts the caller in this loop, however often it writes. No
-- allocation fails, and the structure is given an address that was free.
pub procmsg_connreqinc_spins :
    (n fuel p now : ℕ) (a : Answers) (r : ConnectRet) (buf : List ℕ) (s : NodeConn)
    (xs : List Entry)
    → Lists s.list xs
    → s.list.cells p ≡ none
    → s.mem ≡ []
    → procmsg_connreqinc true fuel p now a r (replicate n want_io) buf s ≡ spinning
unfolding procmsg_connreqinc accept_caller alloc_channel c2n_writebuf_push malloc
procmsg_connreqinc_spins n fuel p now a r buf s xs h e m =
    let id = first_id buf in
    let (l', f, h') = link_channel-Lists p (c2n_alloc_c2c s.own id false now) s.list xs h e in
    let (enough, bytes) = wbuf_push-enough connwritebufsize s.wbuf connallow id in
    let w = (wbuf_push connwritebufsize s.wbuf connallow id []).1 in
    let s' : NodeConn = record s {
      list = l';
      wbuf = w;
      mem = [];
      told = s.told ++ (asked_accept id ∷ []);
    } in
    let k : (length w.bytes == 0) ≡ false =
      ground (arith, ap length bytes, length-append s.wbuf.bytes (connallow ∷ connallow ∷ id)) in
    rw (m, and_next) (rw enough (rw (f, put_list) (rw (write_all_spins n s' k, and_next) refl)))
