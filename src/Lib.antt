-- ===== src/Lib.antt =====
-- A verification of pymod, a Modbus client and server library: its codecs, the planner of batches,
-- the dispatch and the connections of the server, the transports, the client, its command line with
-- the simulator, and the wizard.
--
-- The program. A client call takes a batch of items. The planner (src/pymod/planner.py) groups the
-- items by area, merges their address ranges and splits them by the limits of a request. Each chunk
-- becomes a request PDU (src/pymod/protocol/pdu.py), which the client's `execute`
-- (src/pymod/client.py, with src/pymod/retry.py) sends through a transport, with retries. The
-- transport frames the PDU (src/pymod/protocol/adu_tcp.py or adu_rtu.py). The server
-- (src/pymod/server.py) takes frames off a connection, decodes the request, asks the application's
-- callbacks and encodes the response. The planner decodes the responses, cuts each item's part out
-- of the chunks and converts registers to values (src/pymod/codec). The command line
-- (src/pymod/cli.py) builds one item of its arguments, makes a client of them and prints the result;
-- its `serve` is a server on a memory, and its wizard (src/pymod/_guide.py) asks for the arguments.
--
-- Which file models which part. Definitions keep the names of the source, without the leading
-- underscore.
-- Prelude has numbers, lists, bits and integers; Bytes has what is used of `struct`, and Bytes.Stream
-- `readexactly`. Text has what is used of `str`, on ASCII text, and Text.Ints `int(s, 0)`.
-- Errors is src/pymod/errors.py; a call that may raise returns `Result`. Messages are left out.
-- Types is src/pymod/_types.py.
-- Codec is src/pymod/codec: Codec.Common is _common.py, Codec.Values is values.py, Codec.Bits is
-- bits.py, and Codec.Float is the parameter that stands for Python's floats.
-- Protocol.Pdu is src/pymod/protocol/pdu.py: Request and Response are the client's side,
-- SlaveRequest and SlaveResponse the server's, and Registry the custom codecs. Protocol.AduTcp is
-- adu_tcp.py and Protocol.AduRtu is adu_rtu.py.
-- Planner is src/pymod/planner.py: Ranges plans the reads, Read executes and assembles them, and
-- Write is the write side. The executor is a parameter, which gives the outcome of each request of
-- the batch; that is one function for every interleaving that `asyncio.gather` may choose.
-- Server is the dispatch of src/pymod/server.py, with the application's state and callbacks as
-- parameters, and Server.Connection the loop of one connection on the bytes that arrive.
-- Server.Total is about the replies of `_dispatch` to arbitrary bytes. Server.Lifecycle is `start`,
-- `stop` and the sets of connections, as steps that interleave; cancelling a handler is a flag with
-- which it can end.
-- Transport.RtuResponse is src/pymod/transport/_rtu_response.py. Transport.Tcp is the bookkeeping of
-- src/pymod/transport/tcp.py: transaction ids and pending requests, and in Tcp.Steps their
-- interleavings. Transport.RtuOverTcp is `send_and_receive` of src/pymod/transport/rtu_over_tcp.py and
-- Transport.Serial is src/pymod/transport/serial.py, with what the network or the line does as a
-- parameter.
-- Client is `execute` of src/pymod/client.py with src/pymod/retry.py; the outcome of each attempt and
-- the arithmetic of the delays are parameters. Client.Batch is `read` and `write`, Client.Factory the
-- construction of a client, and Client.Sync the synchronous facade.
-- Cli is src/pymod/cli.py: the argument records, Items for what is built of them, Display for what is
-- printed, Run for the subcommands and `main`, Simulator for the memory of `serve` and
-- Simulator.Config for its contents. What the client's calls return is a parameter.
-- Guide is the prompts of src/pymod/_guide.py on the lines that are typed, Guide.Wizard the questions
-- and Guide.Preview the equivalent command. Examples is examples/sim_server.py.
-- In each of them the modules below hold the proofs, and Runs the runs at concrete inputs.
--
-- Bounds and fuel. Numbers are natural numbers, with the checks of the source on their ranges; values
-- that may be negative are integers. The loops that split a range or a list run on fuel: the length of
-- the range or of the list, and each turn takes at least one unit off it. The loops that read frames
-- run on fuel too: a number of turns, for which the number of bytes is enough, since each turn takes
-- at least six. The prompts make a turn for each line at most.
--
-- Not modelled: sockets, serial ports, threads, the cancellation of calls, two calls of `stop` that
-- overlap, logging and the texts of messages; the order in time of exceptions that `asyncio.gather`
-- raises; `argparse`, for which the argument records stand; the opening of a TCP connection, its
-- two locks and the clock of its calls; the lock of RTU over TCP; the formula of the inter-frame
-- gap, which is in floats. A negative start address or count of the command line is outside the
-- model, as `Types` has natural numbers there.
pub mod Prelude
pub mod Errors
pub mod Text
pub mod Types
pub mod Bytes
pub mod Codec
pub mod Protocol
pub mod Planner
pub mod Server
pub mod Transport
pub mod Client
pub mod Cli
pub mod Guide
pub mod Examples
