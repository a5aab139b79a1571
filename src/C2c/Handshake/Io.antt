-- ===== src/C2c/Handshake/Io.antt =====
-- PICA_client.c: `PICA_write_c2c` and `PICA_read_c2c` on a channel that is set up or active.
use pica_pica.Common.{
  ℕ, ◌-◌, List, ◌++◌, Bool, true, false, ◌&&◌, not, Option, none, some, ◌==◌, if◌then◌else◌, length,
  take,
}
use pica_pica.Msgproc.Defs.{processdatastream}
use pica_pica.C2c.State.{
  C2cState, c2c_waitingrep, c2c_waitingc2cprotover, c2c_active, pica_ok, errssl, errserv, Direct,
  Res, done, fault,
}
use pica_pica.C2c.Table.{c2c_messages}
use pica_pica.C2c.Write.{Writer, returned, exited, write_c2c}
use pica_pica.C2c.Handshake.{
  Trust, Conn, Answers, SslRead, read_bytes, read_again, read_error, Ran, ran, crashed, ended,
}

abbrev pub chanreadbufsize : ℕ
chanreadbufsize = 65536

-- The output buffer and its two connections, as `PICA_write_c2c` has them.
unfoldable pub writer_of : Conn → Writer
writer_of c = record {
  buf = c.chan.wbuf.bytes;
  write_pos = length c.chan.wbuf.bytes;
  sslbytestowrite = c.sslbytestowrite;
  barrier_pos = c.barrier_pos;
  before_barrier_pos = c.before_barrier_pos;
  switched = c.switched_to_directc2c_write;
  disconnect_on_empty = c.chan.disconnect_on_empty_write_buf;
  closed = false;
  relay = c.relay;
  direct = c.direct_sent;
}

unfoldable pub put_writer : Writer → Conn → Conn
put_writer w c = record c {
  chan = record c.chan { wbuf = record c.chan.wbuf { bytes = take w.write_pos w.buf } };
  sslbytestowrite = w.sslbytestowrite;
  barrier_pos = w.barrier_pos;
  before_barrier_pos = w.before_barrier_pos;
  switched_to_directc2c_write = w.switched;
  relay = w.relay;
  direct_sent = w.direct;
}

-- `PICA_write_c2c`. Where it has closed the channel, `process_c2c` goes on to read what is freed.
unfoldable pub write_channel : Answers → Conn → Ran
unfolding writer_of put_writer
write_channel a c = elim (write_c2c c.chan.state a.written (writer_of c)) [
  | returned ret w ↦ if w.closed then crashed else ran ret (put_writer w c)
  | exited ↦ ended
]

-- What `PICA_processdatastream` leaves: its answer, the bytes and the channel.
unfoldable pub after_messages : ℕ → List ℕ → Res (Unit {0}) → Conn → Ran
after_messages ok rest (done x ch) c =
    ran (if ok == 0 then errserv else pica_ok) (record c { chan = ch; read_buf = rest })
after_messages ok rest fault c = crashed

-- The messages of the receive buffer.
unfoldable pub read_messages : Trust → List ℕ → Conn → Ran
unfolding after_messages
read_messages t buf c =
    let (ok, rest, res) = processdatastream buf (done tt c.chan) (c2c_messages t.decide) in
    after_messages ok rest res c

abbrev pub may_read : C2cState → Bool
may_read c2c_waitingrep = true
may_read c2c_waitingc2cprotover = true
may_read c2c_active = true
may_read _ = false

abbrev pub has_direct : Option Direct → Bool
has_direct none = false
has_direct (some d) = true

-- `PICA_read_ssl` and what `PICA_read_c2c` does after it: no more bytes are taken than the receive
-- buffer has room for, and to take none is an error.
unfoldable pub read_ssl : Trust → SslRead → Conn → Ran
unfolding read_messages
read_ssl t (read_bytes bytes) c =
    let got = take (chanreadbufsize - length c.read_buf) bytes in
    if length got == 0 then ran errssl c else read_messages t (c.read_buf ++ got) c
read_ssl t read_again c = read_messages t c.read_buf c
read_ssl t read_error c = ran errssl c

-- `PICA_read_c2c`; it exits the process in a state that it is not meant for.
unfoldable pub read_channel : Trust → Answers → Conn → Ran
unfolding read_ssl
read_channel t a c =
    if not (may_read c.chan.state)
    then ended
    else if c.chan.switched_to_directc2c_read && not (has_direct c.chan.direct)
    then crashed
    else read_ssl t a.read c
