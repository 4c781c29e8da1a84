-- ===== src/Lib.antt =====
-- The networking core of p2p_core: it joins two Minecraft players over UDP hole punching, QUIC or a
-- WebSocket relay.
--
-- The parts, and the files that model them:
-- * src/signaling.rs, the STUN client and the hole puncher. Signaling has the request, the parser of
--   a binding response and its attribute loop; Signaling/Discover has discover_public_addr;
--   Signaling/Punch has punch_remote. Signaling/Attributes is the independent account of a STUN
--   message that the parser is compared with (Parse, Answer, RoundTrip).
-- * src/stun.rs, the NAT probe. StunProbe has the parser of stun_binding_request over its buffer;
--   StunProbe/Nat has detect_nat_type and preflight_port_check; Agreement compares the two parsers.
-- * src/wss_relay.rs, the relay that carries many streams over one WebSocket. Relay has the frames;
--   Relay/Handshake the JSON messages that open a session; Relay/Host has handle_host_frame and the
--   reader loop of host_session; Relay/Client the accept loop and the reader loop of client_session;
--   Relay/UdpClient has client_session_udp; Relay/Pumps has the two pumps of a stream; Relay/Loops the
--   loops that reconnect and the start functions. Relay/Tunnel joins a client's pump to a host's
--   reader loop.
-- * src/models.rs and src/manager.rs, the status and the sessions. Models has NetworkStatus; Manager
--   its operations; Manager/Host the steps of a host session: punch_from_host and its time-out, the
--   relay that is started or replaced, the accept loop, the end of a connection, kick_peer;
--   Manager/Connect has connect_with_retries. Manager/Sessions has the session with its tasks and
--   tokens and reset_session; below it Hosting has start_hosting and stop_hosting, Joining the start
--   of a client session, Commands connect_to_peer, prepare_client_connect and
--   commit_prepared_client_connect, Relays the steps of a host with the tokens and tasks of its relays,
--   Owned and Leaks what is left of a session. Manager/Flow has the
--   task of a client: run_client_connect_flow and run_relay_client_tunnel; Manager/Links what runs on
--   its open connection; Manager/Subscription has subscribe_lobby_events. Manager/Presence has the task
--   that publishes a room, Manager/E4mc the e4mc task, with src/e4mc.rs.
-- * src/lobby.rs, the list of rooms. Lobby has fetch_presence and what hosts publish, and
--   refresh_lobby of the manager, which filters the list; Lobby/Rooms and Lobby/Published treat what
--   of the published rooms is listed.
-- * src/discovery.rs, src/bedrock_broadcaster.rs and src/nethernet_broadcaster.rs, the local network.
--   Discovery has the RakNet ping and the reading of pongs, Discovery/NetherNet the sealed datagrams;
--   Broadcaster has the pong of a room, Broadcaster/NetherNet the sealed response and its task;
--   Broadcaster/Discovered joins the two. Broadcaster/Combined is src/broadcaster.rs, a second
--   broadcaster of that response.
-- * src/tunnel.rs, the reverse tunnel through a bore server. Tunnel has its start, its control loop and
--   the retries at the local target; Tunnel/Copy the copying of bytes.
-- * src/upnp.rs, the port mapping. Upnp has the choice of the local address and the search for a
--   gateway.
-- * src/minecraft.rs, the probes. Minecraft has the VarInts and the handshake packet of a status query;
--   Minecraft/Probe the query itself and the ping of a Bedrock server; Minecraft/Ports the choice of
--   LAN ports from the listeners of the system. Minecraft/Nickname and Minecraft/Runtime have the
--   parsers of launcher files and logs, Minecraft/TextFile the reading of such a file,
--   Minecraft/Players the probe of a server, Minecraft/Preflight the report before hosting,
--   Minecraft/Sources the files and their order, Minecraft/Detection what is detected from them.
-- * src/test_server.rs, the test server. TestServer has its log, its start and stop, the loop of a
--   client and the probe.
-- * Text has the texts of format!; Text/Utf8 and Text/Numbers treat a text as its bytes, with
--   from_utf8_lossy, split, and numbers in decimal; Text/Chars treats it as its characters, with its
--   lines and trim, and Text/Encodings reads characters from UTF-8 and UTF-16.
-- * Base, Text and Net have what the others share: lists and maps measured by native numbers, the
--   ends of a run of Rust code (Outcome), words and bytes, socket addresses and their text.
-- * Examples runs the definitions, and the theorems, at concrete inputs.
--
-- How the code is read:
-- * The relay and the manager are tasks that share a map or a status behind a lock. What a task does
--   with one frame, connection or message is one function from state to state; where the order of
--   tasks matters, a relation has one constructor for each such step, and the theorems hold for
--   every sequence of steps. A step of the manager may take several locks one after the other; that
--   another task comes between them is not modelled.
-- * An index out of bounds is a panic, and a panic is a value (Outcome). Numbers of a fixed width
--   wrap where the code lets them wrap, and stop at 0 where it uses saturating_sub.
-- * The attribute loops run on fuel, the length of the packet: each turn goes on by four bytes at
--   least. The theorems that they return say that this is enough. write_varint runs on five turns,
--   one for each seven bits of a u32; the round trip covers every number below 2^31.
-- * A text that is parsed is its bytes; from_utf8_lossy is written out as the state machine of UTF-8.
--   Decimal digits run on twenty turns, enough for 64 bits.
-- * The commands of the manager hold one lock for their whole time, so they follow one another. Tasks
--   and tokens are numbers; a task counts as running from its spawn to its abort, since a finished
--   task needs no end. Tasks spawned without a handle (the lobby subscription, the UPnP mapping, the
--   punches, the pings of a relay) are not counted. A host's tasks step while its session is there; a
--   relay that is started after its session has ended is not modelled.
-- * The chunks of sixteen bytes run on the length of the datagram, which is more than their number.
-- * The map of rooms in the lobby has no order; the model lists it in the order of arrival, and the
--   theorems look rooms up by name.
-- * The ciphers aes, hmac and hex are one parameter; the round trip of a sealed datagram relies on
--   three laws: a block is decrypted to itself, blocks keep their size, a tag has 32 bytes.
-- * What the network, the clock, the name server, the sockets, zstd and serde_json do is an argument
--   of the definitions. Of zstd the model relies on one law, that what was encoded decodes.
-- * The bounded queues of tokio may make a sender wait. What is sent, and in which order, does not
--   depend on it, so a queue is a list.
-- * Expected peers are kept under the text of their address, which is the address for IPv4.
--
-- * The text of a launcher file or a log is its characters, since it is trimmed and cut by character;
--   the bytes of nickname and line are those of the characters in UTF-8.
-- * The tasks of a host that publish its room or keep an e4mc domain are loops over lists of turns; a
--   list that ends is a task that was aborted.
--
-- Not modelled: the tasks that a failed relay session leaves behind; the start of the Bedrock
-- broadcaster and the search of local processes and files, which drive the system and other programs;
-- src/cert.rs, src/proxy.rs and the programs under src/bin.
pub mod Base
pub mod Text
pub mod TestServer
pub mod Net
pub mod Signaling
pub mod StunProbe
pub mod Relay
pub mod Models
pub mod Manager
pub mod Minecraft
pub mod Broadcaster
pub mod Discovery
pub mod Lobby
pub mod Tunnel
pub mod Upnp
pub mod Examples
