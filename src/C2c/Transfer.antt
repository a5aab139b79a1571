-- ===== src/C2c/Transfer.antt =====
-- PICA_client.c: a file on its way from one client to the other. `process_write` is what `process_c2c`
-- does for an active channel that can be written to, with a connection that takes all bytes at once; a
-- fragment is pushed only where the buffer is empty, so that a connection that takes fewer bytes
-- changes when the bytes arrive, not what they are.
pub mod Send
pub mod Receive
pub mod Complete
pub mod Offer
pub mod Arrives
use pica_pica.Common.{ℕ, zero, suc, some, List, [], Bool, ◌&&◌, ◌==◌, if◌then◌else◌}
use pica_pica.Msgproc.Defs.{processdatastream}
use pica_pica.Node.Wbuf.{w_pos}
use pica_pica.C2c.State.{Code, pica_ok, Chan, Res, M, done, fault, ◌>>=◌, ◌>>◌, return, get, when}
use pica_pica.C2c.Files.{is_sending, send_file, send_file_fragment}
use pica_pica.C2c.Messages.{Decision}
use pica_pica.C2c.Table.{c2c_messages}

-- `PICA_write_c2c`, of a connection that takes all bytes.
abbrev pub flush : M (List ℕ)
flush s = done s.wbuf.bytes (record s { wbuf = record s.wbuf { bytes = [] } })

-- The fragment, where one is due, and then the bytes that the connection takes.
unfoldable pub process_write : M (List ℕ)
process_write = do
  s ← get
  when (is_sending s.sendfilestate && w_pos s.wbuf == 0) send_file_fragment (return pica_ok)
  flush

-- Rounds of the sender's event loop, the bytes of each handed to the receiver's reader.
unfoldable pub exchange :
    (ℕ → List ℕ → Decision) → ℕ → Chan → Res (Unit {0}) → Res (Unit {0}) × Res (Unit {0})
exchange decide zero s r = (done tt s, r)
exchange decide (suc n) s r = elim (process_write s) [
  | done bytes s' ↦ exchange decide n s' (processdatastream bytes r (c2c_messages decide)).2
  | fault ↦ (fault, r)
]

-- The bytes that the first client has to send, given to the reader of the second.
unfoldable pub pass :
    (ℕ → List ℕ → Decision) → Res (Unit {0}) → Res (Unit {0}) → Res (Unit {0}) × Res (Unit {0})
pass decide (done _ a) b = (
  done tt (record a { wbuf = record a.wbuf { bytes = [] } }),
  (processdatastream a.wbuf.bytes b (c2c_messages decide)).2,
)
pass decide fault b = (fault, b)

-- A file is offered and answered, and then sent in rounds of the sender's event loop.
unfoldable pub offer :
    (ℕ → List ℕ → Decision) → List ℕ → List ℕ → Chan → Chan → Res (Unit {0}) × Res (Unit {0})
offer decide path content s r =
    let (s1, r1) =
      pass decide ((send_file (some path) (some content) >>= λ _. return tt) s) (done tt r) in
    let (r2, s2) = pass decide r1 s1 in (s2, r2)

unfoldable pub then_send :
    (ℕ → List ℕ → Decision) → ℕ → Res (Unit {0}) × Res (Unit {0}) → Res (Unit {0}) × Res (Unit {0})
then_send decide n (done _ s, r) = exchange decide n s r
then_send decide n (fault, r) = (fault, r)

unfoldable pub offer_and_send :
    (ℕ → List ℕ → Decision) → ℕ → List ℕ → List ℕ → Chan → Chan → Res (Unit {0}) × Res (Unit {0})
unfolding then_send
offer_and_send decide n path content s r = then_send decide n (offer decide path content s r)
