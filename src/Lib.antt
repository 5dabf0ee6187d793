-- ===== src/Lib.antt =====
-- go-dpdk: the packet library, raw memory, the data structures that its tools share, and the
-- traffic sniffer.
--
-- The program. go-dpdk binds the C library DPDK to Go. What is Go code of its own, and not a call
-- of DPDK, is the package packet, which parses, builds, edits and checksums network packets in the
-- memory of an mbuf; the arithmetic of package mbuf on the data room; the address conversions of
-- package types; the sets, registries and allocator sessions of package common; the maps of
-- processors of package lcore; the lists and hashes of package util; the copies and rows of package
-- mem; the options and the walk of package memzone; the options of packages mempool and ring and
-- how they make and free; the items and patterns of flow rules, and the arrays behind one of their
-- actions; the loop of package pipeline; the differences of counters of package ethdev; the
-- functions that package eal runs on cores; and, under app, the traffic sniffer and what the
-- exporter collects. A packet holds pointers into the memory of its mbuf: a parser moves the
-- pointers, an Init function first lengthens the mbuf and then writes through them, the editing
-- functions move the ends of the mbuf and shift bytes, and the checksum functions read headers and
-- data through the pointers they are given. The sniffer assigns the receive queues of ports to
-- cores, parses each packet that a core receives with the package packet, turns it into the answer
-- in place and sends it, and reports the counters of the ports; before that it sets the ports up,
-- each receive queue with the memory pool of its port. The exporter collects the counters of ports
-- and, in a walk over the memory zones of package memzone, which goes through a registry of package
-- common, those of rings. The stores of package flow write what those of package common do, and
-- errors of the C library reach the exporter as what package common makes of a return code.
--
-- The files, and the code that each is about.
--   Base        names of the libraries that all modules use, machine words with their wrap-around
--               written out (u16, sub16, ...), Boolean tests, lists over the native numbers.
--   Bits        masks, shifts and disjoint bit_or as arithmetic.
--   Memory      memory as a function from addresses to bytes: loads and stores of one, two, four
--               and eight bytes, low byte first, and of runs of bytes. Runs is about sequences of
--               stored runs.
--   Mem         mem/mem.go: Copy is Memcpy, memcpyH and Memmove, Compare is Memcmp, Fill is Memset;
--               Chunk and Move are about the copies, Order about Memcmp, Filled about Memset. Flat
--               is mem/flat.go: Parse, Save and Dump; Rows and Long are about it.
--   Memzone     memzone/memzone.go: the options, Reserve (Reserved is about it) and Walk (Walked).
--   Pipeline    RunLoop and SimpleController of pipeline/pipeline_loop.go and the loop of
--               pipeline/pipeline_loop.h. Flush is about the test of the interval, Stopped about
--               the end of the loop.
--   Types       types/const.go: the numbers and lengths of the protocols.
--   Ipv4Address types/ipv4.go: BytesToIPv4, ArrayToIPv4, SliceToIPv4, IPv4ToBytes.
--   Mbuf        mbuf/mbuf.go: PrependMbuf, AppendMbuf, AdjMbuf, TrimMbuf, the sizes, and the bytes
--               of one segment. Room is about them.
--   Packet      packet/packet.go, packet/checksum.go, packet/arp.go, packet/icmp6.go:
--     Swap      SwapBytesUint16, SwapBytesUint32, SwapBytesIPv4Addr.
--     Header    the header structures, as what a cast of a pointer reads from memory.
--     Parse     the structure Packet and the Parse and Get functions, VxlanDecap included. Wire and
--               Vxlan relate them to the formats on the wire.
--     Checksum  the checksum functions; Ipv6 holds those over IPv6. Reduce is about the folding
--               loop, Words about the data sum, Ipv4, Transport and Ipv6.Accepted about receivers.
--     Edit      EncapsulateHead, EncapsulateTail, DecapsulateHead, DecapsulateTail,
--               PacketBytesChange and GetPacketPayload.
--     Init      GeneratePacketFromByte and the InitEmpty functions.
--     Arp       initARPCommonData and the four functions that build an ARP packet.
--     Icmp6     packet/icmp6.go: the addresses of neighbour discovery, the options and the packets.
--     Sample    frames to run the functions on.
--   Common      package common: Set is common/set.go (Map and its methods; Set.Hex its text),
--               Registry is common/objects.go (objTable and objArray), Allocator is
--               common/allocator.go (AllocatorSession), Split is common/parse.go (SplitFunc; Machine
--               and Word are about it), Errno is common/common.go (the errors) with Collect of
--               app/dpdk-exporter/metrics.go, Raw is common/endian.go and common/pointers.go with
--               the stores of ethdev/flow/utils.go.
--   Lcore       lcore/lcore.go (readCPUHexMap) and, in Numa, lcore/lcore_linux.go (loadCPUMap and
--               getNumaNode).
--   Util        LcoresList is util/lcores.go, Hash32 is util/make_hash.go with hash/crc.go.
--   Ethdev      Stats is ethdev/stats.go (Diff, searchXstat and XstatDiff), TxBuffer is the memory of a
--               buffer in ethdev/rxtx.go (Room is about it), and Flow.Rss is ethdev/flow/action_rss.go:
--               Owned is about which blocks of C belong to an action, Reloaded and Freed about
--               Reload and the finalizer. Flow.Pattern is cPattern and cActions of ethdev/flow/flow.go
--               over the interfaces of ethdev/flow/item.go and ethdev/flow/action.go, with the promises
--               of the interface in Read; Flow.Item is the items (ethdev/flow/item_eth.go and the
--               others), which keep them (Shown, Kept).
--   Mempool     mempool/mempool.go, mempool/mbuf.go and mempool/cache.go: the options and the
--               functions that take them, SetOpsRing (Flags is about them) and ObjIter (Iter).
--   Ring        ring/ring.go: the options, Create, New, NewEAL, Init and Free. Lifecycle and Eal are
--               about who owns the memory of a ring.
--   Eal         eal/eal.go (ExecOnLcoreAsync and StopLcores) and eal/init.go (panicCatcher and
--               lcoreFuncListener). Listener is about the loop of a core, Stop about StopLcores.
--   Exporter    app/dpdk-exporter/metrics.go: EthXstats.Collect (Counted is about it), and in Rings
--               RingMetrics.Collect.
--   Sniffer     app/test-sniffer: Answer is what LcoreFunc does with one packet (lcores.go), Queues
--               is dissectLcores and DistributeQueues (lcores.go), Report is Report (stats.go), Port
--               is Configure and the bit counts (port.go), Pools is NewMempoolPerPort and
--               GetRxMempool (mempool.go).
--
-- The model. A pointer is an address, nil is 0, and a structure in memory is what its cast reads.
-- Numbers are natural numbers; a Go value of w bits keeps its wrap-around, in sums of uint32 once
-- at the end of a chain. Addresses that the code computes by adding an offset to a pointer are not
-- reduced modulo 2 ^ 64, except where the code keeps the result. An operation that changes a packet
-- takes the memory and the packet and returns both; a panic is `none`, or a constructor of its own.
-- The size of the structure that PrependMbuf keeps free is a parameter, since package mbuf takes it
-- from the caller, and so is the flag hwtxchecksum. The mutex of a registry makes each operation
-- one step. sort.SearchInts is the first index whose element is not below the number, which is what
-- its documentation says of ascending slices; the sets hold numbers that are not negative.
-- sort.Sort is insertion by Less. A map of Go is a function or a list without repetitions. What
-- DPDK, the kernel and the allocator of C answer are parameters; strings are lists of bytes, and
-- the decimal text of a number is a parameter. The folding of a checksum is by recursion on the
-- falling sum; the loop of loadCPUMap over the nodes, which ends at the first file that is missing,
-- has fuel, and more fuel than there are files is enough; the loop of SplitFunc has fuel, and more
-- than there are runes is enough; ctzll and clzll have 64 rounds; the loop of a pipeline is looked
-- at after a number of rounds; all other loops recurse on the number of rounds. A function that
-- runs on a core is one that ends; the loop of a core hangs in the send of a result where a parameter
-- says that the channel has neither room nor a receiver. Numbers of float64, and the counters of
-- Prometheus that are added to, are parameters, and so is the greatest allocation of the Go run time,
-- above which `make` panics. A length that the code takes from `len` is a natural number. The
-- runes that SplitFunc reads are of one byte. A field of an object that is saved to a row is the
-- list of its bytes, and a driver is the error that each call of the sniffer on it returns. A block
-- of C memory that holds one structure or one array is a cell of a store by its address, and to
-- free an address that holds no block is `none`.
--
-- Not modelled: the other bindings (the rest of eal, ethdev, memzone, mempool, ring and pipeline;
-- hash, lpm, acl, port and table), which pass their arguments to DPDK; the actions of flow rules
-- other than RSS, ranges and attributes; the other programs under app but for three functions of
-- the exporter, and what the sniffer prints; the String methods of package packet; the conversions
-- by reflection, of which Parse of package mem is given the kinds; the registration of counters;
-- the threads of package lcore.
pub mod Base
pub mod Bits
pub mod Mem
pub mod Memory
pub mod Types
pub mod Ethdev
pub mod Lcore
pub mod Util
pub mod Ipv4Address
pub mod Mbuf
pub mod Packet
pub mod Common
pub mod Eal
pub mod Sniffer
pub mod Memzone
pub mod Pipeline
pub mod Ring
pub mod Mempool
pub mod Exporter
