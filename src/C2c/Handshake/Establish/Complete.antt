-- ===== src/C2c/Handshake/Establish/Complete.antt =====
-- PICA_client.c: two clients that check each other's certificates come to have an active channel.
use pica_pica.Common.{
  ℕ, ◌+◌, ◌-◌, ◌≤◌, ◌≡◌, refl, ap, sym, ◌∙◌, List, [], ◌∷◌, ◌++◌, suc, Bool, true, false, none,
  some, ltb, length, arith, length-append, take_whole, length-drop, drop-length, drop,
}
use pica_pica.Proto.{connid}
use pica_pica.Node.Wbuf.{empty_wbuf}
use pica_pica.C2c.State.{
  c2c_connecting, c2c_waitinganontls, c2c_connid, c2c_waitinganontlsshutdown, c2c_waitingtls,
  c2c_waitingrep, c2c_waitingc2cprotover, c2c_active, pica_ok, is_ok, c2c_established_cb,
}
use pica_pica.C2c.Direct.{allows_incoming}
use pica_pica.C2c.Handshake.{set_state, Cert, Trust, Conn, Answers, ran, verify_peer_cert_common}
use pica_pica.C2c.Handshake.Process.{c2c_activate_timeout}
use pica_pica.C2c.Handshake.Establish.{
  Client, c2n_alloc_c2c, connected_at, heard_at, wrote_at, secured_at, read_at, rounds, Pauses,
  paused, secures, caller_secured, callee_secured, callee_answers, caller_hears, set_up,
}
use pica_pica.C2c.Handshake.Establish.Agreed.{
  reply, request_step, accepted_step, replied_step, answered_step,
}
use pica_pica.C2c.Handshake.Establish.Rounds.{
  all_in_time, at_stage, buffer, ids, request, on_time, rounds_step, connects_step, connid_step,
  written_step, shutdown_step, secured_out_step, secured_in_step,
}

rounds-secures :
    (t : Trust) (me : Client) (peer : List ℕ) (out : Bool) (made time : ℕ) (p : Pauses)
    (as' : List Answers)
    → ((i : ℕ) → all_in_time made (p i) ≡ true)
    → ltb c2c_activate_timeout (time - made) ≡ false
    → length (ids me peer out) ≡ 56
    → rounds t (secures p time as') (at_stage me peer out made c2c_connecting empty_wbuf [] none [])
      ≡ rounds t as' (
          at_stage me peer out made c2c_waitingtls
            (buffer [])
            (connid ∷ connid ∷ ids me peer out)
            none
            [])
unfolding c2n_alloc_c2c
rounds-secures t me peer out made time p as' w l h =
    let msg = connid ∷ connid ∷ ids me peer out in
    let n : length msg ≡ 58 = ap (λ k. suc (suc k)) h in
    let c0 = at_stage me peer out made c2c_connecting empty_wbuf [] none [] in
    let c1 = at_stage me peer out made c2c_waitinganontls empty_wbuf [] none [] in
    let c2 = at_stage me peer out made c2c_connid (buffer msg) [] none [] in
    let c3 = at_stage me peer out made c2c_waitinganontlsshutdown (buffer []) msg none [] in
    let c4 = at_stage me peer out made c2c_waitingtls (buffer []) msg none [] in
    let l1 = paused (p 3) (heard_at time) as' in
    let l2 = paused (p 2) (wrote_at 58 time) l1 in
    let l3 = paused (p 1) (heard_at time) l2 in
    rounds_step t (p 0) (connected_at time) l3 c0 c1 refl (w 0)
      (on_time t (connected_at time) c0 c1 l (connects_step t me peer out made time))
    ∙ rounds_step t (p 1) (heard_at time) l2 c1 c2 refl (w 1)
        (on_time t (heard_at time) c1 c2 l (connid_step t me peer out made time h))
    ∙ rounds_step t (p 2) (wrote_at 58 time) l1 c2 c3 (ground (arith, n)) (w 2) (
        on_time t (wrote_at 58 time) c2 c3 l (
          written_step t me peer out made time msg n
            (take_whole 58 msg (omega (arith, length-drop 58 msg, n)))))
    ∙ rounds_step t (p 3) (heard_at time) as' c3 c4 refl (w 3)
        (on_time t (heard_at time) c3 c4 l (shutdown_step t me peer out made time msg))

caller-rounds :
    (t : Trust) (me : Client) (peer : List ℕ) (x : Cert) (made time : ℕ) (p : Pauses)
    → ((i : ℕ) → all_in_time made (p i) ≡ true)
    → ltb c2c_activate_timeout (time - made) ≡ false
    → length (me.own_id ++ peer) ≡ 56
    → is_ok (verify_peer_cert_common t (some x) peer) ≡ true
    → rounds t
        (caller_secured p x time)
        (at_stage me peer true made c2c_connecting empty_wbuf [] none [])
      ≡ ran pica_ok (
          at_stage me peer true made c2c_waitingrep
            (buffer [])
            ((connid ∷ connid ∷ me.own_id ++ peer) ++ request)
            (some x)
            [])
unfolding c2n_alloc_c2c
caller-rounds t me peer x made time p w l h v =
    let msg = connid ∷ connid ∷ me.own_id ++ peer in
    let c1 = at_stage me peer true made c2c_waitingtls (buffer []) msg none [] in
    let c2 = at_stage me peer true made c2c_waitingrep (buffer request) msg (some x) [] in
    let c3 = at_stage me peer true made c2c_waitingrep (buffer []) (msg ++ request) (some x) [] in
    let l1 = paused (p 5) (wrote_at 4 time) [] in
    rounds-secures t me peer true made time p (paused (p 4) (secured_at x time) l1) w l h
    ∙ rounds_step t (p 4) (secured_at x time) l1 c1 c2 refl (w 4)
        (on_time t (secured_at x time) c1 c2 l (secured_out_step t me peer x made time msg v))
    ∙ rounds_step t (p 5) (wrote_at 4 time) [] c2 c3 refl (w 5)
        (on_time t (wrote_at 4 time) c2 c3 l (request_step t me peer x made time msg))

callee-rounds :
    (t : Trust) (me : Client) (peer : List ℕ) (x : Cert) (made time : ℕ) (p : Pauses)
    → ((i : ℕ) → all_in_time made (p i) ≡ true)
    → ltb c2c_activate_timeout (time - made) ≡ false
    → length (peer ++ me.own_id) ≡ 56
    → is_ok (verify_peer_cert_common t (some x) peer) ≡ true
    → rounds t
        (callee_secured p x time)
        (at_stage me peer false made c2c_connecting empty_wbuf [] none [])
      ≡ ran pica_ok (
          at_stage me peer false made c2c_waitingc2cprotover
            (buffer [])
            (connid ∷ connid ∷ peer ++ me.own_id)
            (some x)
            [])
unfolding c2n_alloc_c2c
callee-rounds t me peer x made time p w l h v =
    let msg = connid ∷ connid ∷ peer ++ me.own_id in
    let c1 = at_stage me peer false made c2c_waitingtls (buffer []) msg none [] in
    let c2 = at_stage me peer false made c2c_waitingc2cprotover (buffer []) msg (some x) [] in
    rounds-secures t me peer false made time p (paused (p 4) (secured_at x time) []) w l h
    ∙ rounds_step t (p 4) (secured_at x time) [] c1 c2 refl (w 4)
        (on_time t (secured_at x time) c1 c2 l (secured_in_step t me peer x made time msg v))

reply-rounds :
    (t : Trust) (me : Client) (peer sent : List ℕ) (x : Cert) (made time : ℕ) (p : Pauses)
    → ((i : ℕ) → all_in_time made (p i) ≡ true)
    → ltb c2c_activate_timeout (time - made) ≡ false
    → allows_incoming me.config ≡ false
    → rounds t
        (callee_answers p request time)
        (at_stage me peer false made c2c_waitingc2cprotover (buffer []) sent (some x) [])
      ≡ ran pica_ok (
          at_stage me peer false made c2c_active
            (buffer [])
            (sent ++ reply)
            (some x)
            (c2c_established_cb ∷ []))
unfolding c2n_alloc_c2c
reply-rounds t me peer sent x made time p w l k =
    let told = c2c_established_cb ∷ [] in
    let c1 = at_stage me peer false made c2c_waitingc2cprotover (buffer []) sent (some x) [] in
    let c2 = at_stage me peer false made c2c_active (buffer reply) sent (some x) told in
    let c3 = at_stage me peer false made c2c_active (buffer []) (sent ++ reply) (some x) told in
    let l1 = paused (p 6) (wrote_at 4 time) [] in
    rounds_step t (p 5) (read_at request time) l1 c1 c2 refl (w 5)
      (on_time t (read_at request time) c1 c2 l (accepted_step t me peer x made time sent k))
    ∙ rounds_step t (p 6) (wrote_at 4 time) [] c2 c3 refl (w 6)
        (on_time t (wrote_at 4 time) c2 c3 l (replied_step t me peer x made time sent))

answer-rounds :
    (t : Trust) (me : Client) (peer sent : List ℕ) (x : Cert) (made time : ℕ) (p : Pauses)
    → ((i : ℕ) → all_in_time made (p i) ≡ true)
    → ltb c2c_activate_timeout (time - made) ≡ false
    → allows_incoming me.config ≡ false
    → rounds t
        (caller_hears p reply time)
        (at_stage me peer true made c2c_waitingrep (buffer []) sent (some x) [])
      ≡ ran pica_ok (
          at_stage me peer true made c2c_active (buffer []) sent (some x) (c2c_established_cb ∷ []))
unfolding c2n_alloc_c2c
answer-rounds t me peer sent x made time p w l k =
    let c1 = at_stage me peer true made c2c_waitingrep (buffer []) sent (some x) [] in
    let c2 =
      at_stage me peer true made c2c_active (buffer []) sent (some x) (c2c_established_cb ∷ []) in
    rounds_step t (p 6) (read_at reply time) [] c1 c2 refl (w 6)
      (on_time t (read_at reply time) c1 c2 l (answered_step t me peer x made time sent k))

after_connid : (msg rest : List ℕ) → length msg ≡ 58 → drop 58 (msg ++ rest) ≡ rest
after_connid msg rest h = ap (λ n. drop n (msg ++ rest)) (sym h) ∙ drop-length msg rest

pub record Established (x : Cert) (c : Conn) : Type 0 where
  pub active : c.chan.state ≡ c2c_active
  pub cert : c.peer_cert ≡ some x
  pub told : c.chan.called ≡ c2c_established_cb ∷ []
  pub untroubled : c.notices ≡ []
  pub flushed : c.chan.wbuf.bytes ≡ []

-- Two clients that find each other's certificates right come to have an active channel between them
-- within 30 seconds, in rounds in which these things happen at each end in this order, with any number
-- of rounds before each of them in which nothing is ready: the connection is made, the anonymous
-- handshake ends at its first call, the message of 58 bytes is taken whole and `SSL_shutdown` answers 0,
-- it answers 1, the handshake of TLS ends at its first call, and then the request and the answer are
-- each written and read whole, all of these at one time of the clock. Both ends are active then, each has kept the certificate that it was
-- shown, each application is told once that the channel is there and of no error, and the output buffers
-- are empty. The ids have 28 bytes, and neither client accepts direct connections. Of other answers,
-- such as a `SSL_shutdown` that answers 1 at once, nothing is said.
pub set_up-Established :
    (t u : Trust) (x y : Cert) (me you : Client) (made time : ℕ) (p q : Pauses)
    → ((i : ℕ) → all_in_time made (p i) ≡ true)
    → ((i : ℕ) → all_in_time made (q i) ≡ true)
    → length me.own_id ≡ 28
    → length you.own_id ≡ 28
    → time ≤ made + 30
    → allows_incoming me.config ≡ false
    → allows_incoming you.config ≡ false
    → is_ok (verify_peer_cert_common t (some x) you.own_id) ≡ true
    → is_ok (verify_peer_cert_common u (some y) me.own_id) ≡ true
    → (c d : Conn) × (set_up t u x y
          (set_state c2c_connecting (c2n_alloc_c2c me you.own_id true made))
          (set_state c2c_connecting (c2n_alloc_c2c you me.own_id false made))
          p
          q
          time
        ≡ some (c, d))
      × Established x c
      × Established y d
unfolding set_up c2n_alloc_c2c
set_up-Established t u x y me you made time p q on on' h k late a b v w =
    let l : ltb c2c_activate_timeout (time - made) ≡ false = ground arith in
    let n : length (me.own_id ++ you.own_id) ≡ 56 =
      omega (arith, length-append me.own_id you.own_id, h, k) in
    let msg = connid ∷ connid ∷ me.own_id ++ you.own_id in
    let n' : length msg ≡ 58 = ap (λ i. suc (suc i)) n in
    let told = c2c_established_cb ∷ [] in
    let c1 =
      at_stage me you.own_id true made c2c_waitingrep (buffer []) (msg ++ request) (some x) [] in
    let d1 = at_stage you me.own_id false made c2c_waitingc2cprotover (buffer []) msg (some y) [] in
    let d2 =
      at_stage you me.own_id false made c2c_active (buffer []) (msg ++ reply) (some y) told in
    let c2 =
      at_stage me you.own_id true made c2c_active (buffer []) (msg ++ request) (some x) told in
    (
      c2,
      d2,
      rw (caller-rounds t me you.own_id x made time p on l n v) (
          rw (callee-rounds u you me.own_id y made time q on' l n w) (
            rw (after_connid msg request n') (
              rw (reply-rounds u you me.own_id msg y made time q on' l b) (
                rw (after_connid msg reply n') (
                  rw (answer-rounds t me you.own_id (msg ++ request) x made time p on l a)
                    refl))))),
      record { active = refl; cert = refl; told = refl; untroubled = refl; flushed = refl },
      record { active = refl; cert = refl; told = refl; untroubled = refl; flushed = refl },
    )
