-- ===== src/Node/LinkStates/Dangling.antt =====
-- PICA_node.c: the pointer of a new connection to a link that a client has had deleted.
use pica_pica.Common.{false}
use pica_pica.Common.Store.{replace}
use pica_pica.Node.State.{Client, Node, client_keyed, cclink_keyed, nodelink_keyed}

abbrev alive_client : Node → Client → Client
alive_client n c = record c { disconnect_ticking = false; tmst = n.now }

abbrev with_alive : Node → Client → Node
with_alive n c = record n { clients = replace (alive_client n c) n.clients }
