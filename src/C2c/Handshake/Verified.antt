-- ===== src/C2c/Handshake/Verified.antt =====
-- PICA_client.c: which certificate a channel has when messages of the peer are read from it, through
-- all that happens to a channel.
use pica_pica.Common.{
  ℕ, ◌≡◌, refl, ap, sym, ◌∙◌, List, true, false, not, Option, none, some, arith, inl, inr,
  Bool-cases,
}
use pica_pica.Node.Ids.{id_eq_iff}
use pica_pica.C2c.State.{c2c_new, c2c_connecting, Code, is_ok, Res, done, fault}
use pica_pica.C2c.Invariant.{Call, call}
use pica_pica.C2c.Handshake.{
  Cert, Trust, Conn, Answers, ConnectRet, connect_done, connect_under_way, connect_error, Ran, ran,
  crashed, ended, on_channel, set_state, long_enough, id_from_x509, verify_peer_cert_common,
  c2c_start, c2c_stage2_startanontls, process_first_async_connect_result, checked_start,
}
use pica_pica.C2c.Handshake.Process.{conclude, process_c2c, process_state}
use pica_pica.C2c.Handshake.Safety.{
  is_trusted, verified, secure, safe, followed-safe, on_channel-safe, stage2-safe,
}
use pica_pica.C2c.Handshake.Safety.States.{process_state-safe}
use pica_pica.C2c.Handshake.Safety.Calls.{state_is, call_state}

conclude-safe :
    (t : Trust) (a : Answers) (ret : Code) (c : Conn)
    → secure t c ≡ true
    → safe t (conclude a ret c) ≡ true
unfolding conclude
conclude-safe t a ret c h = ground arith

process_c2c-safe :
    (t : Trust) (a : Answers) (c : Conn) → secure t c ≡ true → safe t (process_c2c t a c) ≡ true
unfolding process_c2c
process_c2c-safe t a c h =
    followed-safe t (process_state t a c.chan.state c) (conclude a)
      (process_state-safe t a c.chan.state c refl h) (conclude-safe t a)

unverified :
    (t : Trust) (c : Conn) (r : Res Code)
    → secure t c ≡ true
    → verified t c ≡ false
    → (is_trusted c.chan.state ≡ false → state_is (λ s. not (is_trusted s)) r ≡ true)
    → safe t (elim r [ done ret ch ↦ ran ret (record c { chan = ch }) | fault ↦ crashed ]) ≡ true
unverified t c (done ret ch) h e g = ground (arith, g)
unverified t c fault h e g = refl

call-safe :
    (t : Trust) (k : Call) (c : Conn) → secure t c ≡ true → safe t (on_channel (call k) c) ≡ true
call-safe t k c h = elim (Bool-cases (verified t c)) [
  | inl e ↦ on_channel-safe t (call k) c e
  | inr e ↦
      unverified t c (call k c.chan) h e
        (λ i. call_state (λ s. not (is_trusted s)) k c.chan (rw i refl))
]

checked-safe : (t : Trust) (r : Ran) → safe t r ≡ true → safe t (checked_start r) ≡ true
checked-safe t (ran ret c) h = ground arith
checked-safe t crashed h = refl
checked-safe t ended h = refl

start-safe : (t : Trust) (a : Answers) (r : ConnectRet) (c : Conn) → safe t (c2c_start a r c) ≡ true
unfolding c2c_start
start-safe t a connect_done c =
    checked-safe t (c2c_stage2_startanontls a (set_state c2c_connecting c))
      (stage2-safe t a (set_state c2c_connecting c) refl)
start-safe t a connect_under_way c =
    checked-safe t
      (ran (process_first_async_connect_result connect_under_way) (set_state c2c_connecting c)) refl
start-safe t a connect_error c =
    checked-safe t
      (ran (process_first_async_connect_result connect_error) (set_state c2c_connecting c)) refl

-- What may happen to a channel: it is started, the event loop processes it, or the application calls a
-- function.
pub data Reaches (t : Trust) : Conn → Conn → Type 0 where
  begun : (c : Conn) → Reaches t c c
  started :
      {b c c' : Conn} {ret : Code} (a : Answers) (r : ConnectRet)
      → Reaches t b c
      → c2c_start a r c ≡ ran ret c'
      → Reaches t b c'
  processed :
      {b c c' : Conn} {ret : Code} (a : Answers)
      → Reaches t b c
      → process_c2c t a c ≡ ran ret c'
      → Reaches t b c'
  called :
      {b c c' : Conn} {ret : Code} (k : Call)
      → Reaches t b c
      → on_channel (call k) c ≡ ran ret c'
      → Reaches t b c'

Reaches-secure : (t : Trust) {b c : Conn} → Reaches t b c → secure t b ≡ true → secure t c ≡ true
Reaches-secure t (begun c) h = h
Reaches-secure t (started {c = c} a r p e) h = ap (safe t) (sym e) ∙ start-safe t a r c
Reaches-secure t (processed {c = c} a p e) h =
    ap (safe t) (sym e) ∙ process_c2c-safe t a c (Reaches-secure t p h)
Reaches-secure t (called {c = c} k p e) h =
    ap (safe t) (sym e) ∙ call-safe t k c (Reaches-secure t p h)

-- The channel has a certificate of the peer: the digest of it is the peer's id, its RSA key has 4096
-- bits at least, and the application has approved it for this peer.
abbrev pub Identified : Trust → Conn → Type 0
Identified t c =
    (x : Cert) × (c.peer_cert ≡ some x)
    × (t.sha224 x.der ≡ c.peer_id)
    × (long_enough x.rsa_bits ≡ true)
    × (t.peer_cert_verify c.peer_id x.pem ≡ true)

verified-cert :
    (t : Trust) (x : Cert) (peer_id : List ℕ)
    → is_ok (verify_peer_cert_common t (some x) peer_id) ≡ true
    → (t.sha224 x.der ≡ peer_id)
      × (long_enough x.rsa_bits ≡ true)
      × (t.peer_cert_verify peer_id x.pem ≡ true)
unfolding verify_peer_cert_common id_from_x509
verified-cert t x peer_id h =
    (id_eq_iff (t.sha224 x.der) peer_id (ground arith), ground arith, ground arith)

verified-Identified :
    (t : Trust) (c : Conn) (o : Option Cert)
    → c.peer_cert ≡ o
    → is_ok (verify_peer_cert_common t o c.peer_id) ≡ true
    → Identified t c
unfolding verify_peer_cert_common
verified-Identified t c none e h = cc
verified-Identified t c (some x) e h =
    let v = verified-cert t x c.peer_id h in (x, e, v.0, v.1, v.2)

-- Whatever has happened to a channel since it was made, where messages of the peer are read from it or
-- it is active, it has a certificate of the peer whose digest is the id of the peer that the channel is
-- for, with an RSA key of 4096 bits at least, and the application has approved that certificate for
-- that peer.
pub Reaches-Identified :
    (t : Trust) {b c : Conn}
    → Reaches t b c
    → b.chan.state ≡ c2c_new
    → is_trusted c.chan.state ≡ true
    → Identified t c
Reaches-Identified t {b} {c} p n h =
    verified-Identified t c c.peer_cert refl (ground (arith, Reaches-secure t p (rw n refl)))
