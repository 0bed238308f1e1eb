-- ===== src/Lib.antt =====
-- A model of go-nat: the Go library that opens ports on a router through PCP (RFC 6887), NAT-PMP or
-- UPnP and presents what it finds as one NAT.
--
-- The program's parts. DiscoverNATs races the protocols; each of them yields a NAT with
-- AddPortMapping, DeletePortMapping and GetExternalAddress. Package pcp has a wire format, a client
-- for one server (it keeps an epoch, a nonce for each mapping and a lock for each mapping) and a
-- NAT that runs an IPv4 client and an IPv6 client side by side: the IPv4 mapping decides, the IPv6
-- pinhole is best effort.
--
-- Files and code.
--   Base/*            the language: Go's errors and panics (Outcome: a call is ok, err or panic),
--                     errors with %w, comparable keys and maps (Assoc), byte strings, lists, integers
--   Context           what a call sees of a context.Context
--   Addr              netip.Addr and net.IP: families, the IPv4-mapped form, zones
--   Pcp/Protocol      pcp/protocol.go: constants, buildAnnounceRequest, buildMapRequest,
--                     parseResponse, parseMapResponse, addrTo16, addrFrom16
--   Pcp/Client/State  the struct Client of pcp/client.go, its maps of nonces and locks
--   Pcp/Client/Epoch  updateEpoch, EpochStateLost
--   Pcp/Client/Transport  sendOnce, sendRequest, retryDelayWithJitter
--   Pcp/Client/Mapping    addPortMappingWithHint, deletePortMapping, getExternalAddress, Announce
--   Pcp/Client/Concurrent  operations on one client at the same time, with lockMapping and c.mu
--   Pcp/Client/Ranges      the fields of a Client, in the ranges of their Go types
--   Pcp/Discoverer    pcp/gateway_discoverer.go and DiscoverPCP of pcp/nat.go
--   Pcp/Nat           pcp/nat.go: AddPortMapping and the rest; DeletePortMapping in Delete,
--                     CheckServerHealth in Servers
--   Gateway/Selection nat.go: selectGateway, gatewaySelection
--   Gateway/Merge     nat.go: mergeNATs, step by step
--   Gateway/Discovery nat.go: DiscoverNATs, discoverFallbackNATs, DiscoverGateway
--   Gateway/DefaultGateway  gateway.go
--   Gateway/Probes    pcp.go
--   Gateway/PcpIpv6   pcp_ipv6.go: natWithPCPIPv6, over the interfaces NAT and pcpIPv6Client
--   Gateway/Upnp      upnp.go: upnp_NAT, its mappings and its cache; randomPort of nat.go
--   Gateway/Upnp/Service  upnp.go: natFromUPNPLocation, natFromUPNPService
--   Gateway/Upnp/Unicast  upnp.go: discoverUPNPUnicast, searchUPNPUnicast, locationHasAddr
--   Gateway/Upnp/Multicast  upnp.go: discoverUPNP_IG1, discoverUPNP_IG2, discoverUPNP_GenIGDev
--   Gateway/Upnp/Address  upnp.go: GetExternalAddress, GetDeviceAddress, GetInternalAddress, Type
--   Gateway/NatPmp    natpmp.go: AddPortMapping and DeletePortMapping of natpmpNAT
--   Gateway/NatPmp/Discovery  natpmp.go: discoverNATPMP, discoverNATPMPWithAddr, the address queries
-- The modules below each of these hold its theorems; those named Examples hold runs of the code.
--
-- Correspondence. A function keeps its Go name in snake case. A method takes its receiver as a
-- record and returns the record it leaves, beside its Outcome; the early returns of the code are
-- the branches of the Outcome. A byte is a number; a mask is written with bit_and, a shift with *
-- and / and a narrowing with %. A uint32 difference wraps by % 2 ^ 32.
--
-- What is an argument. The system calls of a client operation are an environment: the bytes that
-- crypto/rand gives, what each of the attempts finds on its socket (the datagram with its source
-- address, the error of each call, what the context says then), and the readings of the clock. The
-- routing table (go-netroute) is an argument of discovery. The channels of selectGateway are a
-- sequence of receives in the order that the select statements choose. natWithPCPIPv6 is over any
-- NAT and any client, as the code's interfaces are; its instances at package pcp are in
-- Gateway/PcpIpv6/DualStack. The UPnP device, with the client of goupnp before it, is a record of
-- calls over the device's state; random draws are a function of the turn. The parsers of URLs and
-- of addresses and the answers to an SSDP search are arguments.
--
-- Loops. sendRequest runs four attempts by recursion on the attempts left, as the constant
-- maxRetries gives them. sendOnce has no loop. The loops of selectGateway run on the receives, and
-- that of unicast discovery on the locations of each search. AddPortMapping of UPnP and of NAT-PMP
-- try three random ports, as its loop does, by recursion on the turns left. No other fuel is used.
--
-- What is not modelled. The jitter of a retry is computed over the rationals in place of float64,
-- and lifetime.Seconds() in whole seconds. The text that fmt.Sprintf makes of an address is left out
-- of an error; its numbers are kept. A nil map and an empty one are the same, so the guards of pcp/client.go
-- that make the maps of nonces and of locks before the first write are no steps of their own, and the
-- panic that they prevent is outside the model. The SSDP request that unicast discovery sends is left out, and
-- so is the example program.
--
-- Concurrency. In Pcp/Client/Mapping an operation is a function of the client, from its lock to its
-- return; the mutex and the mapping locks appear as the state that it takes and gives back.
-- Pcp/Client/Concurrent cuts it at the places where other operations can run: each section under
-- c.mu is one step, and so are the taking and the giving back of the mapping lock, the sending of a
-- request, and what the server does with it. The server holds one nonce for each mapping and
-- refuses a request with another (RFC 6887, section 11.3); it may forget a mapping or all of them at
-- any time. A request of an operation that has returned does not reach the server any more, and the
-- client's own address stays: SetLocalIP is called once, before the operations. The
-- goroutines of mergeNATs run step by step in Gateway/Merge, each as far as its next receive or send,
-- beside the sources, which send and close when they like, and the reader. In Gateway/Discovery the two
-- merges of DiscoverNATs run together on one context: what the fallbacks' merge gives out is what the
-- outer one reads. A probe of DiscoverNATs is
-- the list of the NATs that it sends: what each of its select statements chooses, to send or to give
-- up, is an argument.
pub mod Base
pub mod Context
pub mod Addr
pub mod Pcp
pub mod Gateway
