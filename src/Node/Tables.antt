-- ===== src/Node/Tables.antt =====
-- PICA_node.c: the tables of messages. A handler runs on the node as far as the computation has come:
-- after a fault or an exit nothing runs any more. `random` are the bytes that `RAND_pseudo_bytes`
-- gives for the answer to a ping.
pub mod Safety
use pica_pica.Common.{ℕ, List, [], ◌∷◌}
use pica_pica.Proto.{
  connreqoutg, connallow, conndeny, clnodelistreq, pingreq, pingrep, multilogin, connreqoutg_size,
  connallow_size, conndeny_size, clnodelistreq_size, pingreq_size, pingrep_size,
}
use pica_pica.Msgproc.Defs.{MsgInfo, msg_fixed_size, msg_var_size, msg_varsize_int16}
use pica_pica.Node.State.{Run, M, done, exited, fault}
use pica_pica.Node.Nodelist.{Config, procmsg_clnodelistreq}
use pica_pica.Node.ClientMsgs.{
  procmsg_connreqoutg, procmsg_connallow, procmsg_conndeny, procmsg_pingreq_client,
  procmsg_pingrep_client, procmsg_dummy_multi_c2n, procmsg_multilogin_client,
}

abbrev pub Server : Type 0
Server = Run (Unit {0})

abbrev pub resulting : Run ℕ → ℕ × Server
resulting (done a n) = (a, done tt n)
resulting exited = (0, exited)
resulting fault = (0, fault)

-- A handler, on a server that may have stopped.
unfoldable pub on_server : (List ℕ → ℕ → M ℕ) → List ℕ → ℕ → Server → ℕ × Server
on_server h buf size (done _ n) = resulting (h buf size n)
on_server h buf size exited = (0, exited)
on_server h buf size fault = (0, fault)

abbrev entry : ℕ → ℕ → ℕ → (List ℕ → ℕ → M ℕ) → MsgInfo Server
entry id kind size h = record { msgid = id; fixedsz = kind; sz = size; msgprocfn = on_server h }

-- `_msginfo_comm`, for the client at `ptr`.
abbrev pub msginfo_comm : Config → List ℕ → ℕ → List (MsgInfo Server)
msginfo_comm cfg random ptr =
    entry connreqoutg msg_fixed_size connreqoutg_size (λ b s. procmsg_connreqoutg b s ptr)
    ∷ entry connallow msg_fixed_size connallow_size (λ b s. procmsg_connallow b s ptr)
    ∷ entry conndeny msg_fixed_size conndeny_size (λ b s. procmsg_conndeny b s ptr)
    ∷ entry clnodelistreq msg_fixed_size clnodelistreq_size
        (λ b s. procmsg_clnodelistreq cfg b s ptr)
    ∷ entry pingreq msg_fixed_size pingreq_size (λ b s. procmsg_pingreq_client random b s ptr)
    ∷ entry pingrep msg_fixed_size pingrep_size (λ b s. procmsg_pingrep_client b s ptr)
    ∷ entry multilogin msg_var_size msg_varsize_int16 (λ b s. procmsg_multilogin_client b s ptr)
    ∷ []

-- `_msginfo_multi`, for a secondary client of a multi-login.
abbrev pub msginfo_multi : Config → List ℕ → ℕ → List (MsgInfo Server)
msginfo_multi cfg random ptr =
    entry connreqoutg msg_fixed_size connreqoutg_size (λ b s. procmsg_dummy_multi_c2n b s ptr)
    ∷ entry connallow msg_fixed_size connallow_size (λ b s. procmsg_dummy_multi_c2n b s ptr)
    ∷ entry conndeny msg_fixed_size conndeny_size (λ b s. procmsg_dummy_multi_c2n b s ptr)
    ∷ entry clnodelistreq msg_fixed_size clnodelistreq_size
        (λ b s. procmsg_clnodelistreq cfg b s ptr)
    ∷ entry pingreq msg_fixed_size pingreq_size (λ b s. procmsg_pingreq_client random b s ptr)
    ∷ entry pingrep msg_fixed_size pingrep_size (λ b s. procmsg_pingrep_client b s ptr)
    ∷ entry multilogin msg_var_size msg_varsize_int16 (λ b s. procmsg_multilogin_client b s ptr)
    ∷ []
