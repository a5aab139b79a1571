-- ===== src/Node/CcLinks.antt =====
-- PICA_node.c: the list of links between clients, and the states of a link.
use pica_pica.Common.{
  ℕ, suc, ◌+◌, ◌-◌, List, [], ◌∷◌, ◌++◌, Bool, true, false, ◌&&◌, ◌||◌, Option, none, some, ◌==◌,
  if◌then◌else◌,
}
use pica_pica.Common.Store.{has, remove}
use pica_pica.Node.Ids.{id_eq}
use pica_pica.Node.State.{
  CcState, cc_new, local_waitrep, local_waitconncle, local_waitconncleanontlsshutdown,
  local_waitconnclr, local_waitconnclranontlsshutdown, local_active, n2nclr_waitsearch,
  n2nclr_waitrep, n2nclr_waitconnclr, n2nclr_waitconnclranontlsshutdown, n2nclr_active,
  n2ncle_waitrep, n2ncle_waitconncle, n2ncle_waitconncleanontlsshutdown, n2ncle_active, Relay,
  CcLink, M, done, exited, fault, ◌>>=◌, ◌>>◌, return, read_client, update_cclink, alloc,
  cclink_keyed,
}

abbrev pub is_waitsearch : CcState → Bool
is_waitsearch n2nclr_waitsearch = true
is_waitsearch _ = false

-- The loop of `cclink_list_findwaitsearch`.
unfoldable pub find_waitsearch : List ℕ → List CcLink → Option CcLink
find_waitsearch callee_id [] = none
find_waitsearch callee_id (c ∷ cs) =
    if id_eq c.callee_id callee_id && is_waitsearch c.state
    then some c
    else find_waitsearch callee_id cs

-- The loop of `cclink_list_search`.
unfoldable pub find_ids : List ℕ → List ℕ → List CcLink → Option CcLink
find_ids caller_id callee_id [] = none
find_ids caller_id callee_id (c ∷ cs) =
    if id_eq c.caller_id caller_id && id_eq c.callee_id callee_id
    then some c
    else find_ids caller_id callee_id cs

unfoldable pub cclink_list_findwaitsearch : List ℕ → M (Option CcLink)
cclink_list_findwaitsearch callee_id n = done (find_waitsearch callee_id n.cclinks) n

unfoldable pub cclink_list_search : List ℕ → List ℕ → M (Option CcLink)
cclink_list_search caller_id callee_id n = done (find_ids caller_id callee_id n.cclinks) n

-- `cclink_list_delete`: the link is unlinked and freed, and its sockets and buffers with it.
unfoldable pub cclink_list_delete : ℕ → M (Unit {0})
cclink_list_delete l n =
    if has l n.cclinks
    then done tt
        (record n { cclinks = remove l n.cclinks; cclink_list_count = n.cclink_list_count - 1 })
    else fault

abbrev no_relay : Relay
no_relay = record { buflen = 0; bytes = [] }

-- What `calloc` and `cclink_list_add` put into a new link.
unfoldable pub new_link : ℕ → ℕ → Option ℕ → Option ℕ → CcLink
new_link ptr now clr cle = record {
  ptr = ptr;
  state = cc_new;
  tmst = now;
  p1 = clr;
  p2 = cle;
  caller_id = [];
  callee_id = [];
  caller_node = none;
  callee_node = none;
  sck_p1 = none;
  sck_p2 = none;
  p1p2 = no_relay;
  p2p1 = no_relay;
}

-- `cclink_list_add`: at the end of the list; null if there is no memory.
unfoldable pub cclink_list_add : Option ℕ → Option ℕ → M (Option ℕ)
unfolding new_link alloc
cclink_list_add clr cle = do
  answer ← alloc
  λ n.
      if answer
      then done (some n.fresh) (record n {
        cclinks = n.cclinks ++ (new_link n.fresh n.now clr cle ∷ []);
        cclink_list_count = n.cclink_list_count + 1;
        fresh = suc n.fresh;
      })
      else done none n

-- The rest of `cclink_list_addlocal`, for a link that was allocated.
unfoldable pub init_local : Option ℕ → Option ℕ → Option ℕ → M (Unit {0})
unfolding read_client update_cclink
init_local none clr cle = return tt
init_local (some l) clr cle = do
  caller ← read_client clr
  callee ← read_client cle
  update_cclink (some l)
      (λ c. record c { state = local_waitrep; caller_id = caller.id; callee_id = callee.id })

unfoldable pub cclink_list_addlocal : Option ℕ → Option ℕ → M (Unit {0})
unfolding init_local cclink_list_add
cclink_list_addlocal clr cle = do l ← cclink_list_add clr cle; init_local l clr cle

-- `malloc(PICA_ID_SIZE)`, where a failure is fatal.
unfoldable pub alloc_id : M (Unit {0})
unfolding alloc
alloc_id = do answer ← alloc; λ n. if answer then done tt n else exited

unfoldable pub init_n2nclr : Option ℕ → Option ℕ → List ℕ → M (Unit {0})
unfolding read_client update_cclink alloc_id
init_n2nclr none clr callee_id = return tt
init_n2nclr (some l) clr callee_id = do
  caller ← read_client clr
  alloc_id
  update_cclink (some l)
      (λ c. record c { state = n2nclr_waitsearch; caller_id = caller.id; callee_id = callee_id })

unfoldable pub cclink_list_addn2nclr : Option ℕ → List ℕ → M (Unit {0})
unfolding init_n2nclr cclink_list_add
cclink_list_addn2nclr clr callee_id = do l ← cclink_list_add clr none; init_n2nclr l clr callee_id

unfoldable pub init_n2ncle : Option ℕ → List ℕ → Option ℕ → Option ℕ → M (Unit {0})
unfolding read_client update_cclink alloc_id
init_n2ncle none caller_id caller_node cle = return tt
init_n2ncle (some l) caller_id caller_node cle = do
  alloc_id
  callee ← read_client cle
  update_cclink (some l) (λ c. record c {
    state = n2ncle_waitrep;
    caller_id = caller_id;
    callee_id = callee.id;
    caller_node = caller_node;
  })

unfoldable pub cclink_list_addn2ncle : List ℕ → Option ℕ → Option ℕ → M (Unit {0})
unfolding init_n2ncle cclink_list_add
cclink_list_addn2ncle caller_id caller_node cle = do
  l ← cclink_list_add none cle
  init_n2ncle l caller_id caller_node cle

-- The assignments of `cclink_attach_remotecle_node`.
unfoldable pub attach_node : ℕ → CcLink → CcLink
attach_node callee_node c =
    if is_waitsearch c.state
    then record c { state = n2nclr_waitrep; callee_node = some callee_node }
    else c

unfoldable pub cclink_attach_remotecle_node : Option ℕ → ℕ → M (Unit {0})
unfolding update_cclink attach_node
cclink_attach_remotecle_node none callee_node = return tt
cclink_attach_remotecle_node (some l) callee_node = update_cclink (some l) (attach_node callee_node)

-- The `switch` of `cclink_setwaitconn`.
unfoldable pub waitconn : CcState → CcState
waitconn local_waitrep = local_waitconncle
waitconn n2nclr_waitrep = n2nclr_waitconnclr
waitconn n2ncle_waitrep = n2ncle_waitconncle
waitconn s = s

unfoldable pub cclink_setwaitconn : Option ℕ → M (Unit {0})
unfolding update_cclink waitconn
cclink_setwaitconn l = update_cclink l (λ c. record c { state = waitconn c.state })

-- The `switch` of `cclink_activate`, less the registration of events.
unfoldable pub activate : CcState → CcState
activate local_waitconncleanontlsshutdown = local_waitconnclr
activate local_waitconnclranontlsshutdown = local_active
activate n2nclr_waitconnclranontlsshutdown = n2nclr_active
activate n2ncle_waitconncleanontlsshutdown = n2ncle_active
activate s = s

unfoldable pub cclink_activate : Option ℕ → M (Unit {0})
unfolding update_cclink activate
cclink_activate l = update_cclink l (λ c. record c { state = activate c.state })

-- The pointers of the list's links whose ends or nodes a test picks, head first.
unfoldable pub picked : (CcLink → Bool) → List CcLink → List ℕ
picked test [] = []
picked test (c ∷ cs) = if test c then c.ptr ∷ picked test cs else picked test cs

abbrev is_ptr : Option ℕ → ℕ → Bool
is_ptr none p = false
is_ptr (some q) p = q == p

-- The deletions of a walk over the list.
unfoldable pub delete_all : List ℕ → M (Unit {0})
unfolding cclink_list_delete
delete_all [] = return tt
delete_all (l ∷ ls) = do cclink_list_delete l; delete_all ls

-- `cclink_list_delete_by_client` and `cclink_list_delete_by_nodelink` step past a link before they
-- delete it, so each link is seen once.
unfoldable pub cclink_list_delete_by_client : ℕ → M (Unit {0})
unfolding picked delete_all
cclink_list_delete_by_client cl n =
    delete_all (picked (λ c. is_ptr c.p1 cl || is_ptr c.p2 cl) n.cclinks) n

unfoldable pub cclink_list_delete_by_nodelink : ℕ → M (Unit {0})
unfolding picked delete_all
cclink_list_delete_by_nodelink node n =
    delete_all (picked (λ c. is_ptr c.caller_node node || is_ptr c.callee_node node) n.cclinks) n
