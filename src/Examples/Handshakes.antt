-- ===== src/Examples/Handshakes.antt =====
-- Channels that are set up, between two clients whose certificates are their ids.
use pica_pica.Common.{ℕ, ◌≡◌, refl, List, [], ◌∷◌, ◌++◌, true, false, none, some, replicate, arith}
use pica_pica.Proto.{connid}
use pica_pica.Node.Ids.{memcmp}
use pica_pica.Node.Wbuf.{empty_wbuf}
use pica_pica.C2c.State.{
  cfg_disabled, c2c_connecting, c2c_waitinganontls, c2c_connid, c2c_waitinganontlsshutdown,
  c2c_waitingtls, c2c_waitingrep,
}
use pica_pica.C2c.Messages.{deny_now}
use pica_pica.C2c.Handshake.{
  Cert, Trust, Conn, connect_under_way, set_state, c2c_start, verify_peer_cert_common, id_from_x509,
  process_first_async_connect_result,
}
use pica_pica.C2c.Handshake.Verified.{
  Reaches, begun, started, processed, Identified, Reaches-Identified,
}
use pica_pica.C2c.Handshake.Establish.{
  Pauses, Client, c2n_alloc_c2c, quiet, connected_at, heard_at, wrote_at, secured_at, set_up,
}
use pica_pica.C2c.Handshake.Establish.Rounds.{
  all_in_time, at_stage, buffer, request, on_time, connects_step, connid_step, written_step,
  shutdown_step, secured_out_step,
}
use pica_pica.C2c.Handshake.Establish.Complete.{Established, set_up-Established}

abbrev pub id_of : ℕ → List ℕ
id_of n = replicate 28 n

abbrev pub person : ℕ → Client
person n = record { own_id = id_of n; config = cfg_disabled; listens = none; noise = [] }

abbrev pub cert_of : ℕ → Cert
cert_of n = record { rsa_bits = some 4096; der = id_of n; pem = [] }

abbrev pub trusting : Trust
trusting = record {
  sha224 = λ d. d;
  peer_cert_verify = λ id pem. true;
  decide = λ size name. deny_now;
}

-- Two rounds in which nothing is ready, before each in which something is.
abbrev waits : Pauses
waits i = 1 ∷ 5 ∷ []

set_up-Established_example :
    (c d : Conn) × (set_up trusting trusting
        (cert_of 2)
        (cert_of 1)
        (set_state c2c_connecting (c2n_alloc_c2c (person 1) (id_of 2) true 0))
        (set_state c2c_connecting (c2n_alloc_c2c (person 2) (id_of 1) false 0))
        waits
        waits
        7
      ≡ some (c, d))
    × Established (cert_of 2) c
    × Established (cert_of 1) d
unfolding verify_peer_cert_common id_from_x509 memcmp all_in_time
set_up-Established_example =
    set_up-Established trusting trusting (cert_of 2) (cert_of 1) (person 1) (person 2) 0 7 waits
      waits (λ i. refl) (λ i. refl) refl refl (omega arith) refl refl refl refl

abbrev caller_at : Conn
caller_at =
    at_stage (person 1) (id_of 2) true 0 c2c_waitingrep (buffer request)
      (connid ∷ connid ∷ id_of 1 ++ id_of 2) (some (cert_of 2)) []

caller-Reaches : Reaches trusting (c2n_alloc_c2c (person 1) (id_of 2) true 0) caller_at
unfolding c2c_start process_first_async_connect_result c2n_alloc_c2c verify_peer_cert_common
    id_from_x509 memcmp
caller-Reaches =
    let me = person 1 in
    let peer = id_of 2 in
    let msg = connid ∷ connid ∷ id_of 1 ++ id_of 2 in
    let c0 = at_stage me peer true 0 c2c_connecting empty_wbuf [] none [] in
    let c1 = at_stage me peer true 0 c2c_waitinganontls empty_wbuf [] none [] in
    let c2 = at_stage me peer true 0 c2c_connid (buffer msg) [] none [] in
    let c3 = at_stage me peer true 0 c2c_waitinganontlsshutdown (buffer []) msg none [] in
    let c4 = at_stage me peer true 0 c2c_waitingtls (buffer []) msg none [] in
    processed (secured_at (cert_of 2) 7)
      (processed (heard_at 7)
        (processed (wrote_at 58 7)
          (processed (heard_at 7)
            (processed (connected_at 7)
              (started {c' = c0} (quiet 0) connect_under_way (begun (c2n_alloc_c2c me peer true 0))
                refl)
              (on_time trusting (connected_at 7) c0 c1 refl
                (connects_step trusting me peer true 0 7)))
            (on_time trusting (heard_at 7) c1 c2 refl (connid_step trusting me peer true 0 7 refl)))
          (on_time trusting (wrote_at 58 7) c2 c3 refl
            (written_step trusting me peer true 0 7 msg refl refl)))
        (on_time trusting (heard_at 7) c3 c4 refl (shutdown_step trusting me peer true 0 7 msg)))
      (on_time trusting (secured_at (cert_of 2) 7) c4 caller_at refl
        (secured_out_step trusting me peer (cert_of 2) 0 7 msg refl))

Reaches-Identified_example : Identified trusting caller_at
unfolding c2n_alloc_c2c
Reaches-Identified_example = Reaches-Identified trusting caller-Reaches refl refl
