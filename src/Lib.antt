-- ===== src/Lib.antt =====
-- Models of the network servers of this repository, and theorems about them.
--
-- AsyncServer is a server on Boost.Asio callbacks, CoroutineService the same server with a coroutine
-- for each session. In both, bytes of a socket are cut into messages of an id, a length and a body
-- (the session), posted to one logic thread (the logic system), which answers through the send
-- queue of the session.
--
-- AsyncServer/MsgNode: AsyncServer/MsgNode.h and MsgNode.cpp, the buffers. A pointer is the array it
-- points to; `new_node`, `recv_node`, `send_node` are the constructors, `clear` is Clear.
-- AsyncServer/Session: `handle_read` of AsyncServer/Session.cpp, branch by branch: `read_head`,
-- `check_head`, `read_message`, `read_rest`, in the loop `read_loop`. What it asks of the rest of
-- the program is a list of effects. Decode and Stream hold the wire format by itself.
-- AsyncServer/Session/Sending: the constructor, `start`, the two Send and `handle_write`; Link puts
-- the socket behind them, and Delivery and Order say what goes out. AsyncServer/Served puts the session,
-- the logic system and the send queue together.
-- AsyncServer/Server: the acceptor of AsyncServer/Server.cpp and its map of sessions. AsyncServer/Main:
-- main of AsyncServer/AsyncServer.cpp with the pool of IOThreadPool.cpp, as a step relation.
-- WorkQueue: the queue, mutex, condition variable and worker of AsyncServer/LogicSystem.cpp, as a
-- step relation `Step` over calls that hold the mutex; CoroutineService/LogicSystem.cpp has the same
-- code. AsyncServer/LogicSystem and CoroutineService/LogicSystem have the callbacks, and Json the
-- answer that both make.
-- CoroutineService/CSession: the coroutine of CoroutineService/CSession.cpp (`start`), and its two Send
-- and HandleWrite (Sending). CServer is the acceptor of CServer.cpp, which does what a session asks of
-- it (`perform`), and Served puts the logic system behind the coroutine. IoServicePool is GetIOContext
-- of AsioIOServicePool.cpp, and Main the way from a signal to the end of main of CoroutineService.cpp, and
-- of the program, with the threads of the pool and the logic thread.
-- ProtobufServer: AsyncServer_useProtobuf, a session whose messages have a head of two bytes and a
-- protobuf text as their body. Session has `handle_read` with its branches, the two Send and
-- `handle_write`; MsgNode the buffers of its Session.h; Message the reply to a message;
-- Server the acceptor.
-- AsycApi: the session of AsycApi/Session.cpp, whose calls write and read in several ways. Each
-- call and each callback is a function on the session, and what it starts is an effect.
-- Websocket: beast_websocket, a connection that echoes through a queue (Connection), the map
-- of connections (ConnectionMgr) and the server (WebSocketServer). Link puts the stream behind a
-- connection.
-- WebsocketTest: websocket_test/connection.cpp, the same connection in other words, with another catch.
-- HttpServer: beast_http_server/beast_http_server.cpp. Handler has `process_request` and what it
-- calls, Connect the life of a connection with its timer as a step relation, Accept http_server.
-- HttpTest: httptest/httptest.cpp, an earlier form of that server; it shares the pages and the types.
-- Clients: JsonClient/JsonClient.cpp, SyncClient_useProtobuf/SyncClient_useProtobuf.cpp and
-- SyncClient/SyncClient.cpp, what each sends (`send_data`) and reads (`read_reply`), and the requests
-- of a thread of JsonClient_forTest'/JsonClient_forTest'.cpp (`run`). The Server modules and
-- JsonClient/Coroutine put the servers at the other end.
-- EchoServers: the loops of SyncServer/SyncServer.cpp and Coroutine/Coroutine.cpp, on what each round
-- meets, and their client testClient/testClient.cpp. EndPoint: the two loops of
-- endPoint/endPoint/endPoints.cpp (Calls), and the functions with an exit code (Programs).
-- Base, Memory and SessionMap are shared: Boolean tests and lists over the native numbers, memcpy and
-- memset, and the map of sessions of the three acceptors.
--
-- Parameters stand for what is not in the repository: Platform (the layout of a short, the byte order
-- functions, the contents of new arrays), Json (jsoncpp), Socket (asio::async_read), MsgData (the
-- class that protoc generates), Stream and Net (the calls of a socket). LittleEndian,
-- BigEndian, Objects, Bytes and Trickle show that their laws can hold.
--
-- Integers are natural numbers. A short is its 16-bit pattern, and a conversion to it is written
-- `% 65536`; the guards on a signed short are written with its sign. A copy out of bounds and an
-- allocation of a negative size are faults.
--
-- Loops whose end is not plain run on fuel. Of `handle_read`, one unit for each byte and one more are
-- enough (where it returns at all); of the coroutine, one unit for each message and one more; of
-- the logic thread, one for each node and one more; of the protobuf session, one for each message of a
-- read of whole messages; of the loops of EndPoint, one for each byte and one
-- more. The coroutine ends on any stream with more fuel than the stream has bytes. The fuel of
-- HttpTest/Accept is the depth of the stack, of which none is enough.
--
-- Not modelled: console output, threads outside the locked calls above and the two Main modules, the
-- singletons, what the other `main` and the acceptors only hand to Boost.Asio, the code that protoc
-- generates, the gRPC and protobuf demonstrations, and the map and the server of websocket_test, which
-- are those of beast_websocket.
pub mod Base
pub mod Memory
pub mod SessionMap
pub mod Platform
pub mod HttpServer
pub mod HttpTest
pub mod Json
pub mod ProtobufServer
pub mod WorkQueue
pub mod Websocket
pub mod WebsocketTest
pub mod AsycApi
pub mod AsyncServer
pub mod Clients
pub mod EchoServers
pub mod EndPoint
pub mod CoroutineService
