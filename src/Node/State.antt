-- ===== src/Node/State.antt =====
-- The state of PICA_node.c and PICA_node.h: clients, links between clients, links to other nodes and
-- new connections, with the functions that read and store through their pointers. A pointer is a
-- number, a null pointer is `none`. A computation is done, has exited by `PICA_fatal`, or is at fault: it
-- reads or writes through a null pointer or through one that was freed, or frees twice.
use pica_pica.Common.{ℕ, List, Bool, true, false, Option, none, some}
use pica_pica.Common.Store.{Keyed, find, replace}
use pica_pica.Node.Wbuf.{Wbuf, client_wbuf_push, nodelink_wbuf_push, malloc}

-- `PICA_CLSTATE_…`; a new client's state is 0.
pub data ClState : Type 0 where
  cl_new cl_waitanontlsshutdown cl_tlsnegotiation cl_connected cl_multilogin_secondary : ClState

-- `PICA_CCLINK_…`; a new link's state is 0.
pub data CcState : Type 0 where
  cc_new : CcState
  local_waitrep local_waitconncle local_waitconncleanontlsshutdown : CcState
  local_waitconnclr local_waitconnclranontlsshutdown local_active : CcState
  n2nclr_waitsearch n2nclr_waitrep n2nclr_waitconnclr : CcState
  n2nclr_waitconnclranontlsshutdown n2nclr_active : CcState
  n2ncle_waitrep n2ncle_waitconncle n2ncle_waitconncleanontlsshutdown n2ncle_active : CcState

-- `PICA_NEWCONN_…`; a new connection's state is 0.
pub data NcState : Type 0 where
  nc_new nc_waitanontlsaccept nc_waitrequest nc_sendingok nc_sendingreject : NcState
  nc_waitanontlsshutdown : NcState

-- `enum newconn_type`.
pub data NcType : Type 0 where
  newconn_unknown newconn_c2n newconn_c2c newconn_n2n : NcType

-- `struct client`, with its output buffer. `addr` is `addr.sin_addr.s_addr`.
pub record Client : Type 0 where
  pub ptr : ℕ
  pub id : List ℕ
  pub up : Option ℕ
  pub left : Option ℕ
  pub right : Option ℕ
  pub next_multi : Option ℕ
  pub addr : ℕ
  pub wbuf : Wbuf
  pub state : ClState
  pub tmst : ℕ
  pub disconnect_ticking : Bool

-- One direction of a link: `bytes` are the first `bufpos` bytes of the buffer, and `buflen` is 0
-- until it is allocated.
pub record Relay : Type 0 where
  pub buflen : ℕ
  pub bytes : List ℕ

-- `struct cclink`. `caller_id` and `callee_id` are the bytes that those pointers lead to: the
-- identifier of a local client, which does not change while the link exists, or a copy.
pub record CcLink : Type 0 where
  pub ptr : ℕ
  pub state : CcState
  pub tmst : ℕ
  pub p1 : Option ℕ
  pub p2 : Option ℕ
  pub caller_id : List ℕ
  pub callee_id : List ℕ
  pub caller_node : Option ℕ
  pub callee_node : Option ℕ
  pub sck_p1 : Option ℕ
  pub sck_p2 : Option ℕ
  pub p1p2 : Relay
  pub p2p1 : Relay

-- `struct nodelink`. `addr` and `port` are `sin_addr.s_addr` and `sin_port`; `node_addr` is the
-- announced IPv4 address and port, both in network byte order, the only type that is ever attached.
pub record NodeLink : Type 0 where
  pub ptr : ℕ
  pub addr : ℕ
  pub port : ℕ
  pub node_addr : Option (ℕ × ℕ)
  pub wbuf : Wbuf
  pub tmst : ℕ
  pub disconnect_ticking : Bool

-- `struct newconn`, less its buffer. `iconn` is the union of the two pointers.
pub record NewConn : Type 0 where
  pub sck : ℕ
  pub addr : ℕ
  pub state : NcState
  pub kind : NcType
  pub iconn : Option ℕ

instance abbrev pub client_keyed : Keyed Client
client_keyed = record { key = λ c. c.ptr }

instance abbrev pub cclink_keyed : Keyed CcLink
cclink_keyed = record { key = λ l. l.ptr }

instance abbrev pub nodelink_keyed : Keyed NodeLink
nodelink_keyed = record { key = λ n. n.ptr }

-- The globals: the three lists, the root of the tree of clients, and the entries of the array
-- `newconns` that are in use; the clock, the answers that the allocator is going to give and the
-- address of the next structure.
pub record Node : Type 0 where
  pub clients : List Client
  pub tree_root : Option ℕ
  pub cclinks : List CcLink
  pub nodelinks : List NodeLink
  pub newconns : List NewConn
  pub cclink_list_count : ℕ
  pub nodelink_list_count : ℕ
  pub now : ℕ
  pub mem : List Bool
  pub fresh : ℕ

-- The outcome of a computation over the node.
pub data Run (A : Type 0) : Type 0 where
  done : A → Node → Run A
  exited : Run A
  fault : Run A

abbrev pub M : Type 0 → Type 0
M A = Node → Run A

infixl 5 ◌>>=◌ ◌>>◌
abbrev pub ◌>>=◌ : {A B : Type 0} → M A → (A → M B) → M B
◌>>=◌ m f n = elim (m n) [ done a n' ↦ f a n' | exited ↦ exited | fault ↦ fault ]

abbrev pub ◌>>◌ : {A B : Type 0} → M A → M B → M B
m >> k = m >>= λ _. k

abbrev pub return : {A : Type 0} → A → M A
return a n = done a n

-- The value at an address that was looked up.
abbrev deref : {A : Type 0} → Option A → M A
deref none n = fault
deref (some a) n = done a n

-- `*p`, where a client, a node link or a link between clients is read.
unfoldable pub read_client : Option ℕ → M Client
read_client none n = fault
read_client (some p) n = deref (find p n.clients) n

unfoldable pub read_nodelink : Option ℕ → M NodeLink
read_nodelink none n = fault
read_nodelink (some p) n = deref (find p n.nodelinks) n

unfoldable pub read_cclink : Option ℕ → M CcLink
read_cclink none n = fault
read_cclink (some p) n = deref (find p n.cclinks) n

-- `*p = …`.
unfoldable pub update_client : Option ℕ → (Client → Client) → M (Unit {0})
unfolding read_client
update_client p f = do
  c ← read_client p
  λ n. done tt (record n { clients = replace (f c) n.clients })

unfoldable pub update_cclink : Option ℕ → (CcLink → CcLink) → M (Unit {0})
unfolding read_cclink
update_cclink p f = do
  l ← read_cclink p
  λ n. done tt (record n { cclinks = replace (f l) n.cclinks })

-- The allocator's next answer.
unfoldable pub alloc : M Bool
unfolding malloc
alloc n = let (answer, mem') = malloc n.mem in done answer (record n { mem = mem' })

-- `client_wbuf_push` through a pointer, with the tail that the caller fills in.
unfoldable pub push_client : Option ℕ → ℕ → List ℕ → M Bool
unfolding read_client
push_client p msgid tail = do
  c ← read_client p
  λ n.
      let (pushed, w, mem') = client_wbuf_push c.wbuf msgid tail n.mem in
      done pushed (record n { clients = replace (record c { wbuf = w }) n.clients; mem = mem' })

-- `nodelink_wbuf_push` through a pointer, with the tail that the caller fills in.
unfoldable pub push_nodelink : Option ℕ → ℕ → List ℕ → M Bool
unfolding read_nodelink
push_nodelink p msgid tail = do
  l ← read_nodelink p
  λ n.
      let (pushed, w, mem') = nodelink_wbuf_push l.wbuf msgid tail n.mem in
      done pushed (record n { nodelinks = replace (record l { wbuf = w }) n.nodelinks; mem = mem' })

-- A choice between two computations.
abbrev pub when : {A : Type 0} → Bool → M A → M A → M A
when true a b = a
when false a b = b
