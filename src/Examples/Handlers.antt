-- ===== src/Examples/Handlers.antt =====
-- Handlers of the node, run on the sample node.
use pica_pica.Common.{ℕ, ◌≡◌, refl, List, [], ◌∷◌, ◌++◌, true, false, none, arith}
use pica_pica.Common.Store.{every, has}
use pica_pica.Msgproc.Defs.{processdatastream}
use pica_pica.Proto.{connallow, connreqoutg, n2nmsg, n2nfound, n2nallow, multilogin}
use pica_pica.Node.Ids.{first_id, memcmp}
use pica_pica.Node.CcLinks.{find_waitsearch, find_ids}
use pica_pica.Node.State.{cclink_keyed, done}
use pica_pica.Node.Invariant.Defs.{Safe, Any}
use pica_pica.Node.Nodelist.{Config}
use pica_pica.Node.Tables.{msginfo_comm, msginfo_multi}
use pica_pica.Node.Tables.Safety.{
  Sound, processdatastream-comm-Sound, processdatastream-multi-Sound,
}
use pica_pica.Node.NodeMsgs.{
  procmsg_n2nfound, procmsg_n2nmsg, procmsg_n2nallow, procmsg_n2nnotfound, procmsg_n2nconnreqoutg,
}
use pica_pica.Node.NodeMsgs.Safety.{
  procmsg_n2nallow-Safe, procmsg_n2nnotfound-Safe, procmsg_n2nconnreqoutg-Safe,
}
use pica_pica.Node.NodeMsgs.Found.{distinct, procmsg_n2nfound-Attached}
use pica_pica.Node.NodeMsgs.Relayed.{fits, procmsg_n2nmsg-Buffered}
use pica_pica.Examples.Sample.{sample, sample-Inv, alice_id, bob_id, carol_id}

abbrev config : Config
config = record { my_addr = 16777343; listen_port = 51914; disable_reserved_addrs = false }

-- A client's CONNALLOW and a CONNREQOUTG behind it.
abbrev from_client : List ℕ
from_client = (connallow ∷ connallow ∷ alice_id) ++ (connreqoutg ∷ connreqoutg ∷ carol_id)

processdatastream-comm-Sound_example :
    Sound sample (processdatastream from_client (done tt sample) (msginfo_comm config [] 2)).2
unfolding has
processdatastream-comm-Sound_example =
    processdatastream-comm-Sound config [] 2 from_client sample sample-Inv refl

-- A MULTILOGIN with a tail of one byte.
abbrev from_secondary : List ℕ
from_secondary = multilogin ∷ multilogin ∷ 1 ∷ 0 ∷ 7 ∷ []

processdatastream-multi-Sound_example :
    Sound sample (processdatastream from_secondary (done tt sample) (msginfo_multi config [] 1)).2
unfolding has
processdatastream-multi-Sound_example =
    processdatastream-multi-Sound config [] 1 from_secondary sample sample-Inv refl

abbrev found_carol : List ℕ
found_carol = n2nfound ∷ n2nfound ∷ carol_id

procmsg_n2nfound-Attached_example :
    Safe sample
      (λ a n'. (find_waitsearch (first_id found_carol) n'.cclinks ≡ none) × (a ≡ 1))
      (procmsg_n2nfound found_carol 30 9 sample)
unfolding has distinct
procmsg_n2nfound-Attached_example =
    procmsg_n2nfound-Attached found_carol 30 9 sample sample-Inv refl refl

abbrev relayed : List ℕ
relayed = n2nmsg ∷ n2nmsg ∷ 59 ∷ 0 ∷ carol_id ++ bob_id ++ (7 ∷ 8 ∷ 9 ∷ [])

procmsg_n2nmsg-Buffered_example :
    Safe sample (λ _ n'. every fits n'.cclinks ≡ true) (procmsg_n2nmsg relayed 63 9 sample)
unfolding has distinct fits every
procmsg_n2nmsg-Buffered_example =
    procmsg_n2nmsg-Buffered relayed 63 9 sample sample-Inv refl refl refl

abbrev allow_alice : List ℕ
allow_alice = n2nallow ∷ n2nallow ∷ alice_id ++ bob_id

procmsg_n2nallow-Safe_example : Safe sample Any (procmsg_n2nallow allow_alice 58 9 sample)
unfolding find_ids memcmp has
procmsg_n2nallow-Safe_example =
    procmsg_n2nallow-Safe allow_alice 58 9 sample sample-Inv (λ l e. ground arith)

procmsg_n2nnotfound-Safe_example : Safe sample Any (procmsg_n2nnotfound allow_alice 58 9 sample)
unfolding find_ids memcmp has
procmsg_n2nnotfound-Safe_example =
    procmsg_n2nnotfound-Safe allow_alice 58 9 sample sample-Inv (λ l e. ground arith)

abbrev allow_carol : List ℕ
allow_carol = n2nallow ∷ n2nallow ∷ carol_id ++ bob_id

abbrev request_bob : List ℕ
request_bob = n2nallow ∷ n2nallow ∷ carol_id ++ bob_id

procmsg_n2nconnreqoutg-Safe_example :
    Safe sample Any (procmsg_n2nconnreqoutg request_bob 58 9 sample)
unfolding has
procmsg_n2nconnreqoutg-Safe_example =
    procmsg_n2nconnreqoutg-Safe request_bob 58 9 sample sample-Inv refl
