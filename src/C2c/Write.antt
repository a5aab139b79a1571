-- ===== src/C2c/Write.antt =====
-- PICA_client.c: the output buffer of a channel and the two connections that it is written to,
-- PICA_write_ssl and PICA_write_c2c. `buf` is the memory of the buffer; `relay` and `direct` are the
-- bytes that the connection through the nodes and the direct one have taken. What SSL_write answers is
-- an input.
pub mod Moves
pub mod Order
pub mod Refinement
use pica_pica.Common.{
  ℕ, zero, suc, ◌+◌, ◌-◌, List, [], ◌∷◌, ◌++◌, Bool, true, false, ◌&&◌, ◌||◌, not, ◌==◌, ltb,
  length, if◌then◌else◌, take, drop,
}
use pica_pica.C2c.State.{
  C2cState, c2c_active, c2c_connid, c2c_waitingrep, Code, pica_ok, errssl, errserv,
}

-- `SSL_write`: it has taken some bytes, it is to be called again with the same bytes, it has failed, or
-- the connection is closed.
pub data SslAnswer : Type 0 where
  wrote : ℕ → SslAnswer
  want_io failed closed_by_peer : SslAnswer

pub record Writer : Type 0 where
  pub buf : List ℕ
  pub write_pos : ℕ
  pub sslbytestowrite : ℕ
  pub barrier_pos : ℕ
  pub before_barrier_pos : ℕ
  pub switched : Bool
  pub disconnect_on_empty : Bool
  pub closed : Bool
  pub relay : List ℕ
  pub direct : List ℕ

-- `memmove(buf, buf + from, n)`.
abbrev pub memmove : ℕ → ℕ → List ℕ → List ℕ
memmove from n buf = take n (drop from buf) ++ drop n buf

pub record Written : Type 0 where
  pub ret : Code
  pub after : List ℕ
  pub pos : ℕ
  pub btw : ℕ
  pub taken : List ℕ

-- The bytes that SSL_write is called with.
abbrev pub asked : ℕ → ℕ → ℕ
asked pos btw = if btw == 0 then pos else btw

-- `PICA_write_ssl`, of a buffer, `*ppos` and `*btw`.
unfoldable pub write_ssl : SslAnswer → List ℕ → ℕ → ℕ → Written
write_ssl (wrote n) buf pos btw =
    if pos == 0
    then record { ret = pica_ok; after = buf; pos = pos; btw = btw; taken = [] }
    else record {
      ret = pica_ok;
      after = if ltb n pos then memmove n (pos - n) buf else buf;
      pos = pos - n;
      btw = 0;
      taken = take n buf;
    }
write_ssl want_io buf pos btw =
    if pos == 0
    then record { ret = pica_ok; after = buf; pos = pos; btw = btw; taken = [] }
    else record { ret = pica_ok; after = buf; pos = pos; btw = asked pos btw; taken = [] }
write_ssl failed buf pos btw =
    if pos == 0
    then record { ret = pica_ok; after = buf; pos = pos; btw = btw; taken = [] }
    else record { ret = errssl; after = buf; pos = pos; btw = asked pos btw; taken = [] }
write_ssl closed_by_peer buf pos btw =
    if pos == 0
    then record { ret = pica_ok; after = buf; pos = pos; btw = btw; taken = [] }
    else record { ret = errserv; after = buf; pos = pos; btw = asked pos btw; taken = [] }

abbrev pub ret_ok : Code → Bool
ret_ok pica_ok = true
ret_ok _ = false

-- The part of `PICA_write_c2c` for a channel with a barrier, after `PICA_write_ssl`.
unfoldable pub before_barrier : Written → Writer → Code × Writer
before_barrier r w =
    let w' = record w {
      buf = r.after;
      before_barrier_pos = r.pos;
      sslbytestowrite = r.btw;
      relay = w.relay ++ r.taken;
    } in
    if ret_ok r.ret && r.pos == 0
    then (
      r.ret,
      record w' {
        switched = true;
        buf = memmove w.barrier_pos (w.write_pos - w.barrier_pos) r.after;
        write_pos = w.write_pos - w.barrier_pos;
        barrier_pos = 0;
      },
    )
    else (r.ret, w')

-- The part for a channel without one.
unfoldable pub no_barrier : Written → Writer → Code × Writer
no_barrier r w =
    let w' = record w { buf = r.after; write_pos = r.pos; sslbytestowrite = r.btw } in
    if w.switched
    then (r.ret, record w' { direct = w.direct ++ r.taken })
    else (r.ret, record w' { relay = w.relay ++ r.taken })

-- How many bytes before the barrier are still to be written.
abbrev pub before : Writer → ℕ
before w = if w.before_barrier_pos == 0 then w.barrier_pos else w.before_barrier_pos

unfoldable pub write_either : SslAnswer → Writer → Code × Writer
unfolding write_ssl before_barrier no_barrier
write_either answer w =
    if not (w.barrier_pos == 0)
    then before_barrier (write_ssl answer w.buf (before w) w.sslbytestowrite) w
    else no_barrier (write_ssl answer w.buf w.write_pos w.sslbytestowrite) w

-- `PICA_write_c2c` in a state that it is meant for; it exits the process in any other.
pub data Outcome : Type 0 where
  returned : Code → Writer → Outcome
  exited : Outcome

abbrev pub may_write : C2cState → Bool
may_write c2c_active = true
may_write c2c_connid = true
may_write c2c_waitingrep = true
may_write _ = false

abbrev pub close_on_empty : Writer → Writer
close_on_empty w =
    if w.disconnect_on_empty && w.write_pos == 0 then record w { closed = true } else w

unfoldable pub write_c2c : C2cState → SslAnswer → Writer → Outcome
unfolding write_either
write_c2c state answer w =
    if not (may_write state)
    then exited
    else (let (ret, w') = write_either answer w in returned ret (close_on_empty w'))

-- A message is pushed behind the bytes that are there.
unfoldable pub push : List ℕ → Writer → Writer
push msg w = record w { buf = take w.write_pos w.buf ++ msg; write_pos = w.write_pos + length msg }

-- `PICA_send_directc2c_switch`, where the push succeeds: what follows the message goes to the direct
-- connection.
unfoldable pub send_switch : List ℕ → Writer → Writer
unfolding push
send_switch msg w = record (push msg w) { barrier_pos = w.write_pos + length msg }
