-- ===== src/Lib.antt =====
-- Fiberproxy is a proxy for services: it finds the hosts of a service in consul, sends the calls of
-- its clients to them over HTTP, RPC or a raw protocol, each call in a fiber of its own, and
-- forwards ports to services. This library models its core, source/core/forward-manager, the
-- connections of its clients, the handlers of their commands and the log of calls.
--
-- Parts, and the files that model them:
--   Types: source/core/common/FibpCommonTypes.h, the requests and responses of a call.
--   ForwardManager: FibpForwardManager.cpp, call_single_service, with its loop of retries. Remote
--     is the interface to all that it asks of others, over a world that holds their state.
--     ForwardManager/Outcome has how a call ends, ForwardManager/Attempts what is counted, and
--     ForwardManager/Life init and stop, and the way of a batch to the fibers of a thread.
--   Batch: FibpForwardManager.cpp, call_services_in_fiber. Each call is one step of a schedule,
--     the order in which the fibers end. Batch/Complete and Callback have the proofs. The
--     transaction manager, which nothing in the program sets, is taken to be there.
--   Transaction: FibpTransactionMgr.cpp. ServiceCache: FibpServiceCache.cpp.
--   ServiceMgr: FibpServiceMgr.cpp, the tables of hosts and the choice of an address;
--     ServiceMgr/Parse and ServiceMgr/Nodes read the answers of consul through the interface Json
--     to rapidjson. ServiceMgr/Nodes/Passing says which nodes pass their checks, apart from the code's
--     loops. ServiceMgr/Healthy goes from an answer to the address of a call.
--     ServiceMgr/Polling has the long polls and the fibers that they start, ServiceMgr/Cluster the name
--     of the cluster, and ServiceMgr/Setup the constructor and stop.
--   ClientMgr: FibpClientMgr.cpp, the pools of clients of a thread. ClientMgr/Pool has the steps of
--     the fibers that share them as a relation.
--   ClientFuture: FibpClientFuture.cpp. RawClient: FibpClient.cpp, FibpRawClient, with the futures
--     in a heap that the waiting fiber and the reading fiber share, RawClient/Steps what fibers do.
--   PortForward: FibpPortForwardMgr.cpp; PortForward/Keys: watchPortForwardChangeFunc of
--     FibpServiceMgr.cpp, which starts and stops the ports that the agents ask for.
--     PortForward/Copy: source/core/fiber-server/FibpPortForwardConnection.cpp, the bytes of a
--     forwarded connection, in both directions.
--   RpcServer: source/core/fiber-server/FibpRpcServer.cpp, the requests over msgpack-rpc.
--   RpcClient: FibpClient.cpp, FibpRpcClient. Session: FibpClient.cpp, ClientSession, the socket below
--     the clients.
--   Http: source/core/fiber-server/HttpProtocolHandler.{h,cpp}, the messages of HTTP: the gathering of a
--     response (Http/Gather, and Http/Read, its loop) and of a request (Http/Incoming) from the
--     callbacks of the parser, and the writers; Http/Client and Http/Exchange: FibpClient.cpp,
--     FibpHttpClient, what it makes of a request and a response, and what an exchange leaves.
--   HttpServer: source/core/fiber-server/HttpConnection.cpp, the answers of a connection;
--     HttpServer/Loop: do_parse of HttpProtocolHandler.cpp, which reads its requests;
--     HttpServer/Order, Since and Pipeline have what it answers at once, what it
--     defers, and what it gives to the fiber pool.
--   Driver: source/core/fiber-server/FiberDriverConnection.cpp, the other protocol of the clients.
--   Commands: source/process/controllers, the handlers behind both: the parser of requests, the
--     rendering of responses, and the handlers with their record in the log.
--   Logger: source/core/log-manager/FibpLogger.{h,cpp}, the ring of the records of calls.
--     Logger/Spec is the book of calls that it implements, as a step relation; Logger/Sender its
--     sending fiber, Logger/Points what it sends, Logger/Stats the statistics that it makes of it,
--     with a reference in Logger/Stats/Runs, Logger/Round a round of it, with what
--     reportServiceStats of FibpServiceMgr.cpp posts, and Logger/Rounds the rounds one behind the
--     other, while other fibers change the ring.
--   FiberPool: source/core/fiber-server/FiberPool.hpp, the tasks that wait for the fibers of a thread.
--     FiberPool/Manager has the choice of a pool for a thread.
--   Servers: source/core/fiber-server/AsyncMultiIOServicesServer.h, the accepting of connections.
--   ThreadObjects: source/core/common/MultiThreadObjMgr.hpp, an object for each thread.
--   ByteSize: source/core/common/ByteSizeParser.cpp.
--   Config: source/process/common/XmlConfigParser.{h,cpp}, the configuration file: Config/Attributes has
--     the reading of one element or attribute, Config/Settings the settings in the order of the code,
--     Config/File the file with its exceptions. Config/Runs, System, Agent, Util, Common and Loaded have
--     what a run that throws nothing has read, Config/Faults what is thrown.
--   Process: source/process: Process/Options is common/ProcessOptions.cpp, Process/Signals is
--     common/OnSignal.cpp, Process/Start is FibpServerProcess.cpp and FibpServerMain.cpp, as the calls
--     that set up the servers. The others have the proofs.
--   Prelude: the library names that the parts share, Boolean tests, byte strings, lists, and ordered
--     maps and sets over an interface for keys. Tests: the theorems at concrete inputs.
--
-- Numbers are natural numbers. The wrap-around of the 32-bit request number and of the size of a
-- raw request is written out, and so are the checks of the 64-bit byte sizes. Balance counters do
-- not wrap here: they start at rand(), below 2^31, and take a few steps. Strings are lists of bytes, and a text ends before its first NUL where the code
-- reads it through a C string.
--
-- Loops are structural: a call has three rounds, a port connection two. The loop that reads frames
-- runs on fuel; each frame has eight bytes at least, and fuel above the number of frames is enough.
-- So does the loop that takes records from the ring of the log, for which fuel above the million slots
-- is enough. The loops of connections run over a list of what their sockets give.
--
-- Other code, and so parameters: the HTTP and RPC exchanges with a host, the cache of
-- izenelib, rapidjson, the calls that http_parser makes of its callbacks, the port that the system
-- binds, boost::lexical_cast, boost::split, boost::trim_if, boost::iequals and atof, msgpack, the JSON
-- reader, writer and router of izenelib with its handlers, what the system makes of a connect,
-- a read or a write, the elements of ticpp, the file system, the validation against the schema, the
-- address of the host, boost::program_options, and the sum and the mean of latencies, which are
-- floating point.
--
-- Taken not to throw: remote_endpoint(), the unpacker of msgpack, and the look at the directory of the
-- configuration. The loop that reads a response is taken to find its socket open.
--
-- Not modelled: the running of services in threads in source/core/fiber-server, the
-- wiring of boost::asio, the requests to the log server, which are calls of msgpack-rpc, and the
-- registration, whose call is commented out. Members that nobody calls,
-- such as the variants of the connections with callbacks, are left out. source/core/boost-fiber and
-- http_parser are copies of libraries.
pub mod Prelude
pub mod Types
pub mod Remote
pub mod ServiceCache
pub mod Transaction
pub mod ForwardManager
pub mod Batch
pub mod Json
pub mod ServiceMgr
pub mod ClientMgr
pub mod ClientFuture
pub mod RawClient
pub mod PortForward
pub mod ByteSize
pub mod Config
pub mod Process
pub mod Http
pub mod FiberPool
pub mod Logger
pub mod HttpServer
pub mod Driver
pub mod Commands
pub mod RpcClient
pub mod RpcServer
pub mod Session
pub mod Servers
pub mod ThreadObjects
pub mod Tests
