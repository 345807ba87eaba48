-- ===== src/Lib.antt =====
-- go-odp: a Go library that drives the Open vSwitch kernel datapath over netlink, and a command-line
-- tool on top of it. This library models the message layer, the datapaths, vports, flows and packets,
-- and proves what a caller relies on: what is written is what is read, a dump gives what the kernel
-- listed, and the consumers of events are called as they should be.
--
-- The parts, and how they work together:
-- - Prelude: the shared names, Boolean tests, lists with native lengths, association lists (Prelude.Map)
--   and how a call ends (Prelude.Results): a value, an error, a panic, a read outside of the memory, or
--   the model's fuel running out.
-- - Memory, with Memory.Codec: odp/unsafe.go, typed access to byte slices (uint16At, uint32At,
--   nlAttrAt, uint16FromBE and so on).
-- - Align and Builder: odp/netlink.go, `align` and NlMsgBuilder (NewNlMsgBuilder, Align, Grow,
--   AlignGrow, PutAttr, PutNestedAttrs, Put...Attr, Finish). Builder.Emits and Builder.Values say what
--   each writer appends, in the format of Format. Builder.Slice has the slice with its capacity (expand,
--   MakeAlignedByteSlice, MakeAlignedByteSliceCap and the end of Align, Grow and AlignGrow), and
--   Builder.Slice.Refines compares it with the bytes.
-- - Format: the netlink attribute format as a function of a list of attributes, the reference that
--   writers and parsers are compared with. It models no code but the type Attr.
-- - Parser: odp/netlink.go, NlMsgParser (Advance, AlignAdvance, nextNlMsg, checkHeader,
--   checkResponseHeader, ExpectNlMsghdr, checkData, parseAttrs).
-- - Attrs: odp/netlink.go, Attrs with its getters, TakeAttrs, ParseNestedAttrs, GetOrderedAttrs.
-- - Session: odp/netlink.go, recv, Receive, Request, RequestMulti, processNlMsgDone and consume.
--   Session.Packets describes datagrams of whole messages.
-- - Dpif: odp/genetlink.go, odp/dpif.go and odp/datapath.go, the generic netlink header and the OVS
--   header with their checks, and DatapathHandle. Dpif.Exchange has what the operations on datapaths,
--   vports, flows and packets share: a socket, a request behind its headers, an answer, a dump.
--   Dpif.Messages describes the messages of a family, Dpif.Replies what the checks make of them,
--   Dpif.Asks a request that is answered, Dpif.Dumps a dump and Dpif.Events the consumption of events.
-- - Family: odp/genetlink.go, LookupGenlFamily, and odp/dpif.go, lookupFamily, NewDpif, getMCGroup.
--   Family.Groups says what LookupGenlFamily reads from a reply.
-- - System: the system calls, as a record of functions that the other modules take as a parameter, with
--   what the code relies on in IsLawful. System.Sockets has OpenNetlinkSocket and Close
--   (odp/netlink.go), System.Dpifs NewDpif, Reopen, Close, Cancel and loadOpenvswitchModule
--   (odp/dpif.go, odp/datapath.go), System.Consumers ConsumeVportEvents (odp/vport.go) and
--   ConsumeMisses (odp/packet.go). System.Leaves, System.Descriptors and System.Sessions are about the
--   descriptors that are left open.
-- - Datapath: odp/datapath.go, the requests of a Dpif on datapaths; Datapath.Calls what they return.
-- - Vport: odp/vport.go, VportSpec and parseVport; Vport.Requests the requests of a DatapathHandle on
--   vports, Vport.Events consumeVportEvents; the other children have their theorems.
-- - Packet: odp/packet.go, missVportConsumer, consumeMisses and Execute. Packet.Runs has the steps of
--   the goroutines that share a missVportConsumer, Packet.Echo the events that its requests cause, and
--   Packet.Misses what a consumer of misses gets and what Execute sends.
-- - Tunnel: odp/flow.go, TunnelAttrs and TunnelAttrsPresence with toNlAttrs and parseTunnelAttrs.
-- - Flow: odp/flow.go. Flow.Blob has BlobFlowKey with the in-port and the ethernet key, Flow.Key the
--   FlowKey interface with its implementations, Flow.Keys the type FlowKeys with Equals and toNlAttrs,
--   Flow.Parse the function ParseFlowKeys with its table, Flow.Action the actions, Flow.Spec FlowSpec,
--   parseFlowSpec and parseFlowInfo, Flow.Setters the setters of tunnels, and Flow.Requests CreateFlow,
--   DeleteFlow, ClearFlow and EnumerateFlows.
-- - Tool: tool/odp/main.go. Tool.Commands has the table of commands with subcommands.run,
--   possibleSubcommands.run, findFirstOpt and Flags.Parse, Tool.Options has parseTunnelFlags and
--   parseSetTunnelFlags with the parsers of their texts, Tool.Ethernet has
--   handleEthernetFlowKeyOptions; Tool.Selection and Tool.Flags have theorems. Tool.Printing has
--   printTunnelOptions, printSetTunnelOptions, printEthAddrOption and addTunnelFlags, and its children
--   what is read back. Tool.Talk has the commands' console, Tool.Handlers the commands on datapaths and
--   vports with lookupDatapath, Tool.Flows flagsToFlowSpec with addFlow, deleteFlow and clearFlow, and
--   Tool.Listing has listFlows. The parsers and printers of net, strconv, fmt and encoding/hex, and
--   FlagSet.Parse, are parameters.
-- - Tests: runs, and each result at a concrete input.
--
-- How the code is read: a method that changes its receiver returns the receiver's new state, and a
-- closure's variables are a state that is handed through. A slice is the bytes that it shows, and for
-- a parser also the `tail` that the array holds behind them, since the accesses of odp/unsafe.go check
-- their first byte only. The host is little-endian. Lengths stay below 2^63, so that `int` does not
-- overflow; the uint16 and uint32 fields of headers wrap as in the code. A Go map is an association
-- list, whose order stands for the order of `range`. An error is a constructor with the values that its
-- text shows. A method that fails returns the error alone where no caller looks at its receiver again.
-- What Recvfrom returns is a list of datagrams, addresses and errnos; a call that has used it up waits.
-- Whether Sendto fails is given with the socket.
--
-- Fuel: parseAttrs has one round for each byte of the message and one more, and each round passes a
-- header of four bytes, so that it never runs out. Receive has as many rounds for a datagram; a message
-- moves on by at least four bytes, unless its header states the length 0, on which the consumers of
-- the library panic. consume has one call of Receive for each thing that is received, and one more.
-- The loop of expand has one round more than the length that is asked for, and each round makes the
-- capacity larger by at least one.
--
-- What a call finds on its socket is given with it, and what is left of it is returned, so that a
-- later call can go on. A lock makes the call that holds it one step. A handler that waits for ever
-- for a response ends, in the model, in the result that stands for running out of fuel.
--
-- Not modelled: String methods; listenOnDatapath and tcpdump of the tool with their pcap output,
-- listenForVports, the usage messages and main (tool/odp/main.go), which are input and output; that
-- each command of the tool opens and closes its Dpif, since NewDpif and Close are those of System; a
-- call of Close while another goroutine waits in Recvfrom; the constants of odp/syscall.go that no code
-- uses, while the others stand in the modules that use them.
pub mod Align
pub mod Attrs
pub mod Builder
pub mod Datapath
pub mod Dpif
pub mod Family
pub mod Flow
pub mod Format
pub mod Memory
pub mod Packet
pub mod Parser
pub mod Prelude
pub mod Session
pub mod System
pub mod Tests
pub mod Tool
pub mod Tunnel
pub mod Vport
