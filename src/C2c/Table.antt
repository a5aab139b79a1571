-- ===== src/C2c/Table.antt =====
-- PICA_client.c: the table of the messages between two clients.
use pica_pica.Common.{ℕ, List, [], ◌∷◌}
use pica_pica.Proto.{initrespok, verdiffer, initrespok_size, verdiffer_size}
use pica_pica.Proto.C2c.{
  msgutf8, msgok, sendfilerequest, acceptedfile, deniedfile, filefragment, filecontrol, msgok_size,
  acceptedfile_size, deniedfile_size, filecontrol_size, directc2c_addrlist, directc2c_failed,
  directc2c_switch, c2cconnreq, directc2c_failed_size, directc2c_switch_size, c2cconnreq_size,
}
use pica_pica.Msgproc.Defs.{MsgInfo, msg_fixed_size, msg_var_size, msg_varsize_int16}
use pica_pica.C2c.State.{Res, M, done, fault}
use pica_pica.C2c.Messages.{
  Decision, procmsg_msgutf8, procmsg_msgok, procmsg_sendfilerequest, procmsg_acceptedfile,
  procmsg_deniedfile, procmsg_filefragment, procmsg_filecontrol,
}
use pica_pica.C2c.Direct.{
  procmsg_directc2c_addrlist, procmsg_directc2c_failed, procmsg_directc2c_switch,
  procmsg_c2cconnreq, procmsg_initresp_c2c,
}

-- A channel that the handlers run on; after a fault nothing runs any more.
unfoldable pub on_chan : (List ℕ → ℕ → M ℕ) → List ℕ → ℕ → Res (Unit {0}) → ℕ × Res (Unit {0})
on_chan h buf nb fault = (0, fault)
on_chan h buf nb (done _ c) = elim (h buf nb c) [ done a c' ↦ (a, done tt c') | fault ↦ (0, fault) ]

abbrev pub entry : ℕ → ℕ → ℕ → (List ℕ → ℕ → M ℕ) → MsgInfo (Res (Unit {0}))
entry id kind size h = record { msgid = id; fixedsz = kind; sz = size; msgprocfn = on_chan h }

-- `c2c_messages`.
abbrev pub c2c_messages : (ℕ → List ℕ → Decision) → List (MsgInfo (Res (Unit {0})))
c2c_messages decide =
    entry msgutf8 msg_var_size msg_varsize_int16 procmsg_msgutf8
    ∷ entry msgok msg_fixed_size msgok_size procmsg_msgok
    ∷ entry sendfilerequest msg_var_size msg_varsize_int16 (procmsg_sendfilerequest decide)
    ∷ entry acceptedfile msg_fixed_size acceptedfile_size procmsg_acceptedfile
    ∷ entry deniedfile msg_fixed_size deniedfile_size procmsg_deniedfile
    ∷ entry filefragment msg_var_size msg_varsize_int16 procmsg_filefragment
    ∷ entry filecontrol msg_fixed_size filecontrol_size procmsg_filecontrol
    ∷ entry directc2c_addrlist msg_var_size msg_varsize_int16 procmsg_directc2c_addrlist
    ∷ entry directc2c_failed msg_fixed_size directc2c_failed_size procmsg_directc2c_failed
    ∷ entry directc2c_switch msg_fixed_size directc2c_switch_size procmsg_directc2c_switch
    ∷ entry c2cconnreq msg_fixed_size c2cconnreq_size procmsg_c2cconnreq
    ∷ entry initrespok msg_fixed_size initrespok_size procmsg_initresp_c2c
    ∷ entry verdiffer msg_fixed_size verdiffer_size procmsg_initresp_c2c
    ∷ []
