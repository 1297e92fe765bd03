-- ===== src/Lib.antt =====
-- Verification of the packet inspection engine of the repository: the path of a packet from the
-- bytes of a capture file to the verdict of a fast path and to the output file, with the rules, the
-- flow table and the extractors that decide it.
--
-- The parts, the code that they model and how they meet:
-- * Flow (dpi/types.py: FiveTuple, five_tuple_hash, flow_hash) is the identity of a flow. `&` with
--   the mask of 64 bits is the remainder by 2 ^ 64.
-- * Job (dpi/types.py: PacketJob) is a packet on its way between threads.
-- * Queue (dpi/thread_safe_queue.py: ThreadSafeQueue): a method holds the one lock throughout, so
--   it is one step; a call that waits is `blocked`. Queue/Fifo and Queue/Closing are about all
--   sequences of calls, which are all interleavings of the threads.
-- * Balance (dpi/load_balancer.py: LoadBalancer, LBManager): from the reader's choice of a balancer
--   to its choice of a queue. The thread of a balancer is a state machine of two steps in a round,
--   receive and dispatch, since its push may block.
-- * Text is the operations on strings that the code uses, on lists of code points.
-- * Sni, Http, Dns (dpi/sni_extractor.py: SNIExtractor, HTTPHostExtractor, DNSExtractor) take a
--   payload apart. An index past its end raises, as in Python. Sni/ClientHello and Dns/Query model
--   the generators of test packets (generate_test_pcap.py: create_tls_client_hello,
--   create_dns_query).
-- * Apps (dpi/types.py: AppType, _pattern_matches, _SNI_PATTERNS, sni_to_app_type,
--   app_type_to_string) maps a name to an application. The table is that of the source.
-- * Tracker (dpi/connection_tracker.py: ConnectionTracker, with Connection, ConnectionState and
--   PacketAction of dpi/types.py) is the flow table of a fast path, an ordered dictionary.
-- * Rules (dpi/rule_manager.py: RuleManager) is the tables of rules and should_block; Rules/Sets is
--   the dictionary used as an ordered set.
-- * FastPath (dpi/fast_path.py: FastPathProcessor) ties them together: look up or create the
--   connection, count the packet, advance the TCP state, inspect the payload, apply the rules.
-- * Pack is the formats of the standard library's struct that the code uses, in either byte order;
--   the order of the host is a parameter of what uses `=`.
-- * Parser (dpi/packet_parser.py: PacketParser, ParsedPacket) takes a frame apart, layer by layer.
-- * Pcap (dpi/pcap_reader.py: PcapReader, and the writers of dpi/dpi_engine.py) reads and writes
--   capture files. An open file is the bytes left to read.
-- * Engine (dpi/dpi_engine.py: DPIEngine; dpi/types.py: DPIStats) is the reader thread, from the
--   bytes of a file to the jobs in the order in which they are pushed to the queues of the
--   balancers, and the output. A push waits while its queue is full.
-- * Rules/File (dpi/rule_manager.py: _stoi, save_rules, load_rules) is the rules file, as text.
-- * Quic (dpi/sni_extractor.py: QUICSNIExtractor) looks for a Client Hello in a packet.
-- * Summary (dpi/connection_tracker.py: GlobalConnectionTable) counts over the trackers.
-- * Startup (dpi/dpi_engine.py: DPIEngine.initialize, FPManager and LBManager) builds the pools and
--   connects them; Drain (DPIEngine._wait_until_queues_idle) watches the queues run empty.
-- * Platform (dpi/platform.py) is network byte order.
-- * Working (main_working.py: Flow, BlockingRules, main) is the single-threaded engine: it shares
--   the reader, the parser, the extractors and the table of applications with the threaded one, and
--   has its own rules (Working/Blocking), its own search for names (Working/Classify), flow table and
--   loop. The variables of `main` are a record.
-- * Redaction (ai/redaction.py: sanitize_hostname, HostPseudonymiser, redact_ip) is what of a capture
--   may be sent to a language model.
-- * Chunking (ai/rag/chunking.py: _split_section) cuts a section of the knowledge base into chunks.
-- * Knowledge (ai/rag/context.py: build_knowledge_context, _neutralise_fences) takes chunks into the
--   reference block of a prompt, within limits.
-- * Prelude holds what these share; Tests holds data and the theorems at concrete inputs.
--
-- Bounds and fuel: a loop over a payload has fuel for one round more than the payload's length,
-- and each round moves its position on, so the fuel is never the reason for an answer. The reader
-- has fuel for one round more than the bytes of the file, and a packet takes sixteen of them at
-- least; so has the loop of the single-threaded engine. The splitting of a section has fuel for one
-- round more than its characters, and each round moves its start on; the letters of a label have
-- fuel for one round more than its number, which each round divides. Counters wrap at 2 ^ 64, ports at 2 ^ 16 and addresses at 2 ^ 32 as in the source. The
-- clock is a number of nanoseconds. Names are of Latin-1 code points, which is what the extractors
-- decode to.
--
-- The connection object of a packet is passed by value within the turn of that packet and put back
-- into the table at its end; the fast path's thread is the table's only writer. `fnmatchcase` of
-- the standard library is a parameter: the theorems hold for every function in its place.
--
-- Where the matches of a regular expression end, what `ipaddress` says of an address, what `str` knows
-- of Unicode where text is not from a packet, and a similarity with its text are parameters too.
--
-- Not modelled: the start and stop of threads; what is printed or reported as text; of the AI
-- analysis the calls of language models, the embeddings and the ranking, which compute on floating
-- point numbers, and the reading of documents; dpi_mt.py, a second copy of the threaded engine in
-- one file; test runners and command line options but for those of main_working.py.
pub mod Prelude
pub mod Flow
pub mod Queue
pub mod Job
pub mod Balance
pub mod Text
pub mod Apps
pub mod Sni
pub mod Http
pub mod Dns
pub mod Tracker
pub mod Rules
pub mod FastPath
pub mod Pack
pub mod Parser
pub mod Pcap
pub mod Engine
pub mod Quic
pub mod Summary
pub mod Startup
pub mod Drain
pub mod Platform
pub mod Working
pub mod Knowledge
pub mod Redaction
pub mod Chunking
pub mod Tests
