-- ===== src/Lib.antt =====
-- Pica Pica: the node (server) of the Pica Pica messenger, a network of nodes that connects clients
-- to one another by their certificates' identifiers, and the channels between two clients.
--
-- The program's parts and the files about them. PICA_msgproc.c frames the bytes that a connection
-- receives and hands each message to its handler; PICA_node.c holds the node: clients in a list and a
-- binary search tree, links between clients, links to other nodes, and a handler for each message.
-- PICA_client.c is the library that clients link: a channel to another client goes through the nodes,
-- and both may move it to a direct connection; over it go texts and files.
--
-- Common: Boolean tests on the numbers, lists over the native numbers, and stores of structures
--   that are reached by address (a list of records, each with the number of its address).
-- Proto: the constants of PICA_proto.h.
-- Msgproc: PICA_msgproc.c. Defs has PICA_msggetsize, PICA_processmsg and PICA_processdatastream as
--   msggetsize, processmsg and processdatastream; Size, Stream, Segments and Encode are about them.
-- Node.Wbuf: the output buffers, client_wbuf_push and nodelink_wbuf_push.
-- Node.State: the structures of PICA_node.h and the globals of PICA_node.c as the record Node, and a
--   monad of computations over it. A pointer is a number, a null pointer is none, and a computation
--   that follows a null or a freed pointer ends in fault; one that calls PICA_fatal ends in exited.
-- Node.Ids, Node.Tree: identifiers and the tree of clients, client_tree_search, client_tree_add,
--   client_tree_remove and client_tree_replace_multi.
--   Shape is the search tree apart from the pointers; Descent, Parent, Add and Map follow the pointers.
-- Node.CcLinks: the list of links between clients, the functions cclink_*.
-- Node.LinkStates: the states of a link, cclink_allocbufs, cclink_setwaitanontlsshutdown and
--   cclink_sendcleconnected. Dangling is about the pointer of a new connection to its link.
-- Node.Newconns: the array of new connections, newconn_add. Netconf: PICA_netconf.c, the test
--   PICA_is_reserved_addr_ipv4.
-- Node.ClientMsgs, Node.NodeMsgs, Node.Nodelist: the handlers procmsg_*, of messages from clients,
--   from nodes, and of requests for the list of nodes, whose addresses Built describes.
--   Node.Nodelist.Received is the loop of procmsg_NODELIST. Node.Tables: the tables of messages of clients.
-- Node.Invariant: the invariant of the node (Inv), about the clients, their links and the links to
--   nodes but not the entries of newconns, computations that are not at fault (Safe), and
--   what the elementary computations keep.
-- C2n: the loop of procmsg_CLNODELIST, by which a client reads a list of nodes.
-- C2c.State: struct PICA_c2c as the record Chan, and a monad of computations over it, with fault for
--   the use of a null pointer and for a read past a message. C2c.Files: the calls PICA_send_file,
--   PICA_accept_file, PICA_deny_file, PICA_pause_file, PICA_resume_file, PICA_cancel_file,
--   PICA_send_msg and PICA_send_file_fragment.
-- C2c.Messages, C2c.Direct, C2c.Table: the handlers procmsg_* of the messages between clients, about
--   texts and files, about the version and a direct connection, and the table c2c_messages.
--   C2c.Messages.Faults and C2c.Direct.Outcomes are about what a handler does not survive.
-- C2c.Streams, C2c.Invariant: which file is open in which state, through calls and messages.
-- C2c.Write: PICA_write_ssl and PICA_write_c2c, the output buffer with the barrier behind which bytes
--   go to the direct connection.
-- C2c.Handshake: how a channel is set up, c2c_start and the stages c2c_stage2_startanontls to
--   c2c_stage6_sendc2cconnreq, the check of the certificate verify_peer_cert_common, and process_c2c
--   with PICA_read_c2c and PICA_write_c2c (Io, Process). What connect, getsockopt and OpenSSL answer in
--   a round is a record of answers, and a certificate is what OpenSSL tells of it. Safety and Verified
--   follow the certificate through all that happens to a channel; Establish runs both ends through
--   one order of answers, with pauses.
-- C2n.Channels: the list of the channels of a connection, with its pointers in a memory: c2n_alloc_c2c,
--   PICA_close_c2c, PICA_close_c2n, find_matching_c2c and the loop of PICA_event_loop over the channels.
-- C2n.Requests: PICA_new_c2c and the handlers CONNREQINC, FOUND, NOTFOUND and INITRESP.
-- C2c.Transfer: two clients and a file, from PICA_send_file to the last byte; its process_write is the
--   write of process_c2c.
-- Examples: runs on concrete inputs.
--
-- How the state corresponds. A buffer with its position is the list of its used bytes, so r_pos, w_pos
-- and bufpos are lengths. A linked list is a list of records; next and prev are its order. caller_id
-- and callee_id are copies of the bytes that the pointers lead to. The clock is the field now; the
-- allocator's answers are a list of Booleans, an input; an address is given once, fresh counts them.
-- The host stores the low byte first, and htons and ntohs
-- exchange the two bytes of a port. An unsigned int is a natural number, reduced modulo 2^32 where the source's sum can wrap. The
-- FILE streams of a channel are the bytes that are still to be read or that were written; whether an
-- opening or a write succeeds, how much a read gives, and what SSL_write answers are inputs. The copies
-- of a file's name that are made and freed in one function are taken to be allocated, and fseeko to
-- succeed.
--
-- Fuel. processdatastream gives its loop one round more than there are bytes, and each round that goes
-- on removes a byte; client_tree_search one step more than there are clients, which the invariant
-- says is enough; procmsg_n2nfound one round more than there are links, each round ends one wait;
-- nodelist_items has one round more than there are bytes of whole items; the walks along
-- next_multi one step more than there are clients; C2c.Transfer.exchange as many rounds as are asked
-- for, and a file needs no more than it has bytes; the loops over the channels of a connection as many
-- rounds as there are channels.
--
-- Not modelled: TLS and sockets, libevent's events, the handlers that open a connection (INITREQ,
-- CONNID, NODECONNREQ, NODERESP, NEWNODE, MULTILOGIN between nodes), the timeouts, the database of node
-- addresses, the configuration file and logging; of the client library the connection to the node, the
-- listener and its handshakes, and the conversion of file names on Windows. Inside TLS nothing is
-- modelled: the calls of OpenSSL answer what they may. The bytes that
-- RAND_pseudo_bytes gives are an argument.
pub mod Common
pub mod Msgproc
pub mod Proto
pub mod Node
pub mod Netconf
pub mod C2c
pub mod C2n
pub mod Examples
