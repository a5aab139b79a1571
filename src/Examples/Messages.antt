-- ===== src/Examples/Messages.antt =====
-- Messages and buffers: a table of two entries, whose handlers record what they are given.
use pica_pica.Common.{
  ℕ, ◌≤◌, ◌%◌, ◌≡◌, refl, List, [], ◌∷◌, ◌++◌, true, false, some, length, take, arith,
}
use mathlib.Core.List.{flatten}
use pica_pica.Msgproc.Defs.{
  MsgInfo, msg_fixed_size, msg_var_size, processdatastream, msggetsize, tail_len, stream_loop,
  round, getsize_loop, processmsg, dispatch,
}
use pica_pica.Msgproc.Stream.{Leftover, processdatastream-Leftover}
use pica_pica.Msgproc.Segments.{feed, feed-flatten}
use pica_pica.Msgproc.Encode.{encode, deliver, Fits, find_msg, processdatastream-encode}
use pica_pica.Node.Wbuf.{Wbuf, client_wbuf_push}
use pica_pica.Node.Wbuf.Laws.{IsValid, Pushes, client_wbuf_push-Pushes}
use pica_pica.Node.Nodelist.{
  Config, client_asks, item, excluded, nodelist_loop, build_nodelist, nodelist_tail,
}
use pica_pica.Node.Nodelist.Bounds.{build_nodelist-Sized}
use pica_pica.Node.Nodelist.Built.{announced, for_requester, max_items, build_nodelist-items}
use pica_pica.Node.Nodelist.Received.Laws.{items}
use pica_pica.Netconf.{htons}
use pica_pica.Examples.Sample.{peer}

abbrev Log : Type 0
Log = List (List ℕ)

abbrev record_msg : List ℕ → ℕ → Log → ℕ × Log
record_msg buf size log = (1, log ++ (buf ∷ []))

abbrev ping : MsgInfo Log
ping = record { msgid = 10; fixedsz = msg_fixed_size; sz = 4; msgprocfn = record_msg }

abbrev note : MsgInfo Log
note = record { msgid = 20; fixedsz = msg_var_size; sz = 2; msgprocfn = record_msg }

abbrev table : List (MsgInfo Log)
table = ping ∷ note ∷ []

-- Two messages and the beginning of a third, cut in the middle of the second.
abbrev pieces : List (List ℕ)
pieces = (10 ∷ 10 ∷ 1 ∷ 2 ∷ 20 ∷ []) ∷ (20 ∷ 1 ∷ 0 ∷ 7 ∷ 10 ∷ []) ∷ []

stream_test :
    processdatastream (flatten pieces) [] table
    ≡ (1, 10 ∷ [], (10 ∷ 10 ∷ 1 ∷ 2 ∷ []) ∷ (20 ∷ 20 ∷ 1 ∷ 0 ∷ 7 ∷ []) ∷ [])
unfolding processdatastream flatten stream_loop round msggetsize getsize_loop processmsg dispatch
    tail_len
stream_test = refl

feed-flatten_example : feed (1, [], []) pieces table ≡ processdatastream (flatten pieces) [] table
unfolding flatten
feed-flatten_example = feed-flatten [] pieces table (omega arith)

note-Fits : Fits note (7 ∷ 8 ∷ [])
note-Fits = record { id_byte = omega arith; layout = ground arith; small = omega arith }

processdatastream-encode_example :
    processdatastream (encode note (7 ∷ 8 ∷ []) ++ (10 ∷ [])) [] table
    ≡ deliver
        (encode note (7 ∷ 8 ∷ []))
        (10 ∷ [])
        table
        (note.msgprocfn (encode note (7 ∷ 8 ∷ [])) (length (encode note (7 ∷ 8 ∷ []))) [])
unfolding find_msg
processdatastream-encode_example =
    processdatastream-encode table note (7 ∷ 8 ∷ []) (10 ∷ []) [] refl note-Fits

processdatastream-Leftover_example :
    Leftover table 3 (processdatastream (20 ∷ 20 ∷ 5 ∷ []) [] table)
processdatastream-Leftover_example = processdatastream-Leftover (20 ∷ 20 ∷ 5 ∷ []) [] table

-- A buffer of 4096 bytes with two in it.
abbrev some_wbuf : Wbuf
some_wbuf = record { allocated = true; buflen_w = 4096; bytes = 3 ∷ 3 ∷ [] }

some_wbuf-IsValid : IsValid some_wbuf
some_wbuf-IsValid = record { within = omega arith; word = omega arith; unallocated = ground arith }

client_wbuf_push-Pushes_example :
    Pushes some_wbuf 10 (1 ∷ 2 ∷ []) [] (client_wbuf_push some_wbuf 10 (1 ∷ 2 ∷ []) [])
client_wbuf_push-Pushes_example =
    client_wbuf_push-Pushes some_wbuf 10 (1 ∷ 2 ∷ []) [] some_wbuf-IsValid (omega arith)

abbrev config : Config
config = record { my_addr = 16777343; listen_port = 51914; disable_reserved_addrs = false }

abbrev sent : List ℕ
sent = item (16777343, 51914) ++ item (16777343, 51914)

build_nodelist-Sized_example :
    (length sent % 7 ≡ 0) × (length sent ≤ 65536) × (tail_len 2 (nodelist_tail sent) ≡ length sent)
unfolding build_nodelist nodelist_loop excluded item
build_nodelist-Sized_example = build_nodelist-Sized config client_asks (peer ∷ []) {out = sent} refl

build_nodelist-items_example :
    build_nodelist config client_asks (peer ∷ [])
    ≡ some (
        items (
          take max_items
            ((16777343, htons 51914) ∷ for_requester client_asks (announced (peer ∷ [])))))
build_nodelist-items_example = build_nodelist-items config client_asks (peer ∷ []) (λ e. cc)
