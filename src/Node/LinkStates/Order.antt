-- ===== src/Node/LinkStates/Order.antt =====
-- PICA_node.c: the order in which a link goes through its states.
use pica_pica.Common.{
  ◌≡◌, sym, ◌∙◌, ap, List, [], ◌∷◌, Bool, true, false, ◌==◌, if◌then◌else◌, arith, ◌⊎◌, inl, inr,
}
use pica_pica.Node.CcLinks.{is_waitsearch, waitconn, activate}
use pica_pica.Node.LinkStates.{state_number, waitanontlsshutdown}
use pica_pica.Node.State.{
  CcState, local_waitrep, local_waitconncle, local_waitconncleanontlsshutdown, local_waitconnclr,
  local_waitconnclranontlsshutdown, local_active, n2nclr_waitsearch, n2nclr_waitrep,
  n2nclr_waitconnclr, n2nclr_waitconnclranontlsshutdown, n2nclr_active, n2ncle_waitrep,
  n2ncle_waitconncle, n2ncle_waitconncleanontlsshutdown, n2ncle_active,
}

-- What happens to a link: a node is found for the callee (`cclink_attach_remotecle_node`), the link is
-- accepted (`cclink_setwaitconn`), a connection is taken for it (`cclink_setwaitanontlsshutdown`), and
-- the anonymous TLS session of that connection is shut down (`cclink_activate`). Who accepts and who
-- connects is not part of an event.
pub data Event : Type 0 where
  node_found accepted connected tls_shut : Event

unfoldable pub step : Event → CcState → CcState
unfolding waitconn activate waitanontlsshutdown
step node_found s = if is_waitsearch s then n2nclr_waitrep else s
step accepted s = waitconn s
step connected s = waitanontlsshutdown s
step tls_shut s = activate s

unfoldable pub run : List Event → CcState → CcState
run [] s = s
run (e ∷ es) s = run es (step e s)

-- The events that change the state.
pub effective : List Event → CcState → List Event
effective [] s = []
effective (e ∷ es) s =
    let rest = effective es (step e s) in
    if state_number (step e s) == state_number s then rest else e ∷ rest

abbrev pub is_active : CcState → Bool
is_active local_active = true
is_active n2nclr_active = true
is_active n2ncle_active = true
is_active _ = false

-- What is left to happen before data is relayed.
pub awaited : CcState → List Event
awaited local_waitrep = accepted ∷ connected ∷ tls_shut ∷ connected ∷ tls_shut ∷ []
awaited local_waitconncle = connected ∷ tls_shut ∷ connected ∷ tls_shut ∷ []
awaited local_waitconncleanontlsshutdown = tls_shut ∷ connected ∷ tls_shut ∷ []
awaited local_waitconnclr = connected ∷ tls_shut ∷ []
awaited local_waitconnclranontlsshutdown = tls_shut ∷ []
awaited n2nclr_waitsearch = node_found ∷ accepted ∷ connected ∷ tls_shut ∷ []
awaited n2nclr_waitrep = accepted ∷ connected ∷ tls_shut ∷ []
awaited n2nclr_waitconnclr = connected ∷ tls_shut ∷ []
awaited n2nclr_waitconnclranontlsshutdown = tls_shut ∷ []
awaited n2ncle_waitrep = accepted ∷ connected ∷ tls_shut ∷ []
awaited n2ncle_waitconncle = connected ∷ tls_shut ∷ []
awaited n2ncle_waitconncleanontlsshutdown = tls_shut ∷ []
awaited _ = []

awaited-active : (s : CcState) → is_active s ≡ true → awaited s ≡ []
unfolding awaited
awaited-active s h = ground arith

step-awaited :
    (e : Event) (s : CcState)
    → (((state_number (step e s) == state_number s) ≡ true) × (step e s ≡ s))
      ⊎ (((state_number (step e s) == state_number s) ≡ false)
          × (awaited s ≡ e ∷ awaited (step e s)))
unfolding awaited step state_number waitconn activate waitanontlsshutdown
step-awaited node_found s = ground arith
step-awaited accepted s = ground arith
step-awaited connected s = ground arith
step-awaited tls_shut s = ground arith

-- A link that has become active, so that data is relayed through it, has changed its state by
-- exactly the events that its first state awaits, in that order, whatever events came; who caused them is not said:
-- a link in LOCAL_WAITREP is accepted once, and then twice a connection is taken for it and the
-- connection's TLS session is shut down, each before the next.
pub effective-awaited :
    (es : List Event) (s : CcState) → is_active (run es s) ≡ true → effective es s ≡ awaited s
unfolding run effective
effective-awaited [] s h = sym (awaited-active s h)
effective-awaited (e ∷ es) s h = elim (step-awaited e s) [
  | inl (same, stays) ↦ rw same (effective-awaited es (step e s) h ∙ ap awaited stays)
  | inr (other, next) ↦ rw other (ap (◌∷◌ e) (effective-awaited es (step e s) h) ∙ sym next)
]
