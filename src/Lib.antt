-- ===== src/Lib.antt =====
-- FunSIP: a transaction-stateful SIP proxy and registrar with a JavaScript routing engine, in Go.
-- Messages arrive from the transports (pkg/transport), are parsed (pkg/sip) and handed to the transaction
-- layer (pkg/transaction), which absorbs retransmissions and hands each new request to the routing
-- script (pkg/script); the script answers it, or forwards it through the proxy (pkg/proxy), which opens
-- client transactions. Dialogs (pkg/dialog) hang up calls that last too long, the registrar (pkg/registrar)
-- keeps the bindings of its users in a database (pkg/store), and pkg/auth checks digests.
-- Media streams pass through relays and analyzers (pkg/media, pkg/rtp).
--
-- What is modelled, and where:
--
-- - Base, Text: numbers, maps, words of bytes in either order (Base.Wire), and Go's strings as lists of bytes, with the functions of packages strings
--   and strconv that the code calls (ToLower and TrimSpace on ASCII, Fields with all spaces of Unicode, Atoi
--   with its range error). Text.Words and Text.Numbers have the lemmas on texts that are put together from
--   parts, and on printed numbers.
-- - Sip.Headers (pkg/sip/header.go, type Headers): the slice of entries and the index over it, one
--   function per method. Sip.Via and Sip.Address are the other types of that file, Sip.Uri is
--   pkg/sip/uri.go, Sip.Message and Sip.Message.Wire are pkg/sip/message.go. A Go map is an association
--   list, and where the code visits a map in any order, the model visits its list in order, so that what
--   holds for all lists holds for every order.
-- - Transaction.Keys and Transaction.Timers (pkg/transaction/transaction.go); Transaction.Client
--   (client.go) and Transaction.Server (server.go): each method and each timer callback is a function from
--   the transaction to the transaction, as it runs under the lock. Calls of sendFunc and of onResp are
--   recorded in the field `out`, the last one first. `step` is one call from outside or the end of one
--   timer, and `run` a sequence of them in any order.
-- - Transaction.Layer (layer.go): two heaps of transactions, and the maps, counters, timers and waiting
--   goroutines of Layer over them; what Go holds as a pointer is a place in a heap. Layer.Receive and
--   Layer.Respond are the handlers of requests and responses, Layer.Branches the client transactions and
--   their CANCELs, Layer.Ends the goroutines and the collector, Layer.Steps one step for each event.
--   An event runs as one step, as do the messages of one UDP socket or one TCP connection, which one
--   goroutine reads in turn. The code gives up `mu` between a lookup and the write that follows it: two
--   connections that deliver the same request at the same moment, or a timer that runs inside a handler,
--   are not modelled.
-- - Proxy (pkg/proxy/proxy.go): Proxy.Forward has the four ways to forward a request, and Proxy.Back the
--   responses; both change a World of the layer and of what is reported. The first address that a lookup of
--   a host gives and the answer that a media session makes are arguments (Surroundings), and so is the
--   branch that GenerateBranch draws.
-- - Dialog (pkg/dialog/dialog.go): a heap of dialogs and the map from Call-IDs to places in it. Dialog.Manager
--   has what sets up, confirms and finds a dialog, Dialog.Endings what ends it, Dialog.Steps one step for each
--   event. Files are places in a list of what is open; that a file can be opened is an argument.
-- - Registrar (pkg/registrar/registrar.go): Registrar.Register over the interface BindingStore, which
--   Registrar.Table fills with the table of pkg/store/db.go as a list of rows.
-- - Auth (pkg/auth/digest.go): digest authentication, with the hash and the lookup of a subscriber as
--   arguments; any function can stand for either.
-- - Sdp (pkg/sdp/sdp.go): session descriptions, their parser and printer. The printer gives lines, which
--   Bytes joins.
-- - Media (pkg/media/analyzer.go): the trackers of DTMF digits and of lost packets.
-- - Relay (pkg/media/media.go): Relay.Sockets is the allocation of ports over a list of open sockets,
--   Relay.Stream one relayed stream, Relay.Analyzer its observers, Relay.Forwarding what its four
--   goroutines do with a datagram, Relay.Anchor a session with AnchorOffer and AnchorAnswer, Relay.Manager
--   the map of sessions and its sweep. What the system answers to a call of listen is a function of the
--   call's number and the port, so that it may answer each call in its own way. One datagram, or one
--   session that a sweep looks at, is one step.
-- - Audio: Audio.Writer is the recorder of pkg/media/wav.go; Audio.Reader (wav.go), Audio.Codec (codec.go),
--   Audio.Player and Audio.Plays (session.go) are pkg/play, the loop of a player as one turn at a time; and
--   Audio.Answer is PlayAudio of pkg/proxy/proxy.go, which answers a call and plays a file. A file is
--   the list of its bytes, and an open file what is still to be read. A call that waits in Stop, since the
--   session was never started, is a result of its own.
-- - Capture (pkg/pcap/pcap.go), Metrics (pkg/metrics/metrics.go) and Events (pkg/events/events.go): the
--   writer of capture files, the counters with their windows of minutes, and the event sink; the goroutines
--   of the writer and the sink are steps.
-- - Transport (pkg/transport): Transport.Framing is readSIPMessage of tcp.go on the list of bytes that are
--   still to come, Transport.Received what transport.go notes of a packet's source.
-- - Limiter (pkg/script/limiter.go): the sliding-window limiter; the clock is an argument.
-- - Rtp (pkg/rtp/rtp.go) and Rtp.G711 (pkg/rtp/g711.go): the RTP header, telephone events and the two
--   companding laws.
-- - Examples: runs on concrete inputs.
--
-- Bounds and fuel: `itoa` has one more round of fuel than the number it prints, and a number has fewer
-- digits than that; the loop of the A-law encoder has seven rounds for values below 2 ^ 8, and halves its
-- value in each. The loop over the chunks of a WAV file has one more round than the file has bytes, and each
-- chunk takes at least eight of them; the attempts at a pair of ports are the source's own 50. Times are
-- natural numbers; Go's `int` is an integer without wrap, since no modelled computation leaves its range,
-- but for three places that have their limits written out: Atoi's range error, the seconds of a binding as a
-- time.Duration, and the port behind the RTP port. Where the source uses an integer of fixed width, the
-- remainder is written out.
--
-- Not modelled: the system's sockets, files and clock, whose answers are arguments; HTTP, JSON, the
-- JavaScript engine and the glue around it (pkg/script/engine.go), the management interface, the
-- configuration and the commands; the SQL engine itself; the generators of random branches, tags, SSRCs;
-- floating-point measures (jitter, loss rate, MoS, requests a second). Logging is left out everywhere, and
-- so are the calls of the metrics by other parts.
pub mod Audio
pub mod Auth
pub mod Base
pub mod Capture
pub mod Dialog
pub mod Events
pub mod Examples
pub mod Limiter
pub mod Media
pub mod Metrics
pub mod Proxy
pub mod Registrar
pub mod Relay
pub mod Rtp
pub mod Sdp
pub mod Sip
pub mod Text
pub mod Transaction
pub mod Transport
