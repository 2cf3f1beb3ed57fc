-- ===== src/Lib.antt =====
-- hivebus, a micro-clustering platform. The daemons of a node find each other over UDP, agree on a
-- master and are controlled over Unix sockets.
--
-- The parts and the files that model them. Paths are those of the repository, from its root.
--
-- Shared code, crates/proto/src/lib.rs:
--   Proto.antt           the constants
--   Proto/Frame.antt     FrameHeader and MsgType: new, from_bytes, to_bytes, msg_type, seq, node_id
--   Proto/Payload.antt   the payloads of the discovery frames
--   Proto/Node.antt      NodeState, NodeInfo and is_timed_out
--   Proto/Message.antt   ControlOp and ControlReply
--   Proto/Control.antt   encode_control and decode_control, and the reading of a frame as each
--                        control_plane does it
--   Proto/Mac.antt       node_id_from_mac
--
-- hivebus, the membership daemon, crates/hivebus/src/main.rs. Its tasks share one table of members
-- under a lock, which each holds for a whole update:
--   Hivebus/Members.antt   the table and master_from
--   Hivebus/Wire.antt      encode_frame, heartbeat_task, gossip_task and the first announcement: a
--                          round takes the sequence number and gives the datagrams and the next
--                          number
--   Hivebus/Listener.antt  listener_task: what one datagram does to the table
--   Hivebus/Detector.antt  failure_detector_task: what one turn does to the table
--   Hivebus/History.antt   every order of received datagrams and turns, as a step relation
--   Hivebus/Control.antt   control_plane_task: the requests and their replies
--   Hivebus/Identity.antt  derive_node_id
--   Hivebus/Start.antt     Config, Config::load and main: what the tasks are started with
--   Hivebus/Discovery.antt build_udp_socket and the discovery socket
--   Hivebus/Cluster.antt   a cluster in which nobody leaves or is silent, as one node sees it
--   Hivebus/Network.antt   all nodes of a cluster at once, with the frames that are on the network:
--                          which node sends, receives, looks for silent members or restarts next is
--                          a step
--   Hivebus/Unordered.antt the table when its order changes at any time, and without an order
--
-- Socket.antt is one connection to a daemon's Unix socket. The code is the same in all daemons; the
-- handler of the request is an argument. Socket/Setup.antt is how a daemon comes to its socket. Both
-- are what these use:
--   Hivebus/Control.antt   hivebus
--   Pxeboot/Control.antt   pxeboot: boot.register and boot.list
--   Netgate.antt           netgate, crates/netgate/src/main.rs: dns.upsert, dns.delete, proxy.add
--   Netop.antt             netop, crates/netop/src/main.rs: state.set
--   Imager.antt            imager, crates/imager/src/main.rs: image.list and the stubs; also the chunk
--                          request, create_qcow2 and blake3_hash_file
--   Orchestrator.antt      orchestrator, crates/orchestrator/src/main.rs: vm.create and lxc.create
-- Netgate, Netop, Imager and Orchestrator have a child Start: the Config of the daemon and its main up
-- to the tasks. Netgate/Start.antt also has run_proxy_rule, Netop/Start.antt reconcile_loop.
-- Configuration.antt is what they share: the file, and the toml crate that reads it.
--
-- hivectl, the inspector, crates/hivectl/src/main.rs. It asks a hivebus over its socket and shows what
-- it is told:
--   Hivectl.antt         App and ClusterState: new, refresh, scroll_up, scroll_down
--   Hivectl/Anyhow.antt  the errors of anyhow with their contexts, and panics
--   Hivectl/Query.antt   send_op and query_hivebus
--   Hivectl/View.antt    the texts and styles of draw_header and draw_table
--   Hivectl/Screen.antt  ui, draw_error, centered_rect: where the parts of the screen go
--   Hivectl/Screen/Reader.antt  what a reader takes back from the screen
--   Hivectl/Loop.antt    run_loop, one pass of it at a time
--   Hivectl/Entry.antt   main and TerminalGuard
-- Hivectl/Query/Laws.antt puts its requests and the daemon's replies together, and
-- Hivectl/Loop/First.antt follows them to the screen.
--
-- pxeboot, the network boot manager, crates/pxeboot/src/main.rs:
--   Pxeboot/Boot.antt         Config, the boot table, fmt_mac, sanitize_tftp_path, the scripts
--   Pxeboot/Lease.antt        the leases and allocate_ip
--   Pxeboot/Dhcp.antt         build_dhcp_reply and the scan of the options
--   Pxeboot/Dhcp/Handle.antt  dhcp_server: what one datagram does to the boot table and the leases
--   Pxeboot/Dhcp/Run.antt     the server's datagrams and the registrations in any order
--   Pxeboot/Tftp.antt         the TFTP packets, and what tftp_server makes of a request
--   Pxeboot/Tftp/Transfer.antt  serve_tftp_read: the blocks, the acknowledgements and the retries
--   Pxeboot/Tftp/Transfer/Lossy.antt  what a client gets of a transfer when packets are lost;
--                          beside it, Arrival.antt is about a complete transfer, and Losses.antt
--                          about one in which each block gets through
--   Pxeboot/Dhcp/Listen.antt  the socket of dhcp_server
--   Pxeboot/Dhcp/Sends.antt   the types of what the server keeps and sends
--   Pxeboot/Netboot.antt      a node's way from its discover to its script, over both servers
--   Pxeboot/Start.antt        Config::load and main
--
-- Prelude.antt holds what all share: tests, equality, lists, bits, sorting. Std.antt holds what
-- the program uses of Rust's standard library: HashMap as an association list, SystemTime as
-- nanoseconds, texts as UTF-8 bytes, addresses, paths, read_exact, the tree of files and the calls
-- on a UDP socket; what the system refuses is a parameter. Tests.antt applies the theorems to
-- concrete inputs.
--
-- Conventions. Integers are natural numbers; where a value is cut to its width, the remainder is
-- written out. Result carries the text of an error. Code outside the repository is a parameter:
-- the bincode crate is a Codec, with the hypothesis ReadsBack, that a value which was written is
-- read back, where a theorem needs it; the hash function of the imager and the KVM of the
-- orchestrator are records of what they give. The layout of the ratatui crate and what its table
-- does to the selection are a record, with the hypothesis Behaves. What the system does for a
-- connection of hivectl is the record Link, and what the terminal, the clock and the socket give
-- in a pass of its loop the record Pass. The file system and the toml crate at the start are the
-- record ConfigFiles, and of the timer of the tokio crate it is assumed that it panics exactly on
-- a period of zero. A task's clock is read once for each datagram, turn or request. A log line is
-- left out, except for the warning of a duplicate identifier, which is a value. A file that is
-- written and a task that is started are values too.
--
-- Fuel. The decimal digits of a number are written in as many rounds as the number and one more, and
-- each round divides by ten. The search of a free address counts the addresses of the pool, which is
-- the bound of the source. A block of a TFTP transfer is sent five times at most, as in the source.
-- All other loops follow the list that they read.
--
-- Not modelled: the socket that a TFTP transfer binds, the parsing of TOML, signals and exit
-- codes, the painting of the screen, the logging, and the builds for other systems than Linux. The
-- DNS server of netgate, the reconciliation of netop, the containers of the orchestrator and the
-- transfer of images are stubs in the code.
pub mod Prelude
pub mod Std
pub mod Result
pub mod Configuration
pub mod Bincode
pub mod Proto
pub mod Hivebus
pub mod Socket
pub mod Pxeboot
pub mod Netgate
pub mod Netop
pub mod Hivectl
pub mod Imager
pub mod Orchestrator
mod Tests
