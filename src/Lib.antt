-- ===== src/Lib.antt =====
-- A remote desktop for plugins: a client asks the gateway for an application, the gateway starts an
-- AppHost process for it, and from then on the gateway passes packets between the two, pixels one way
-- and input the other. This library models the parts that decide what is said to whom.
--
-- Protocol, Protocol/Parser: src/protocol/protocol.cpp and message_parser.cpp. The 13-byte header with
-- its byte operations, and the class MessageParser, whose methods are functions from a parser to a
-- parser. Protocol/Parser/Stream says what a byte stream means without a parser; Framing has its laws;
-- Refine, Calls and Feed relate the class to it; Receive is the loop that every receiver
-- runs, and Chunks is about streams that arrive in pieces.
-- Common/MessageHandler: src/common/message_handler.cpp, the table of handlers by packet type.
-- Common/ByteOrder, Common/InputEvent: src/common/byte_order.h and input_event.cpp, on a host of either
-- byte order. An access past the end of a buffer is a result of its own.
-- Client/Requests: what src/client/client.cpp sends. Client/Renderer: src/client/pixel_renderer.cpp, the
-- picture of the client; Painting, Rows and Frames below it are about what a dirty rectangle paints, and
-- Scaling about what a window shows of it.
-- Common/Rect: UiRect of the GKC library, with its methods as a parameter.
-- Client/Runtime: ClientRuntime of src/client/client.cpp; Receiving below it is about a stream of packets.
-- Common/Sending: the loop over `send`, which client.cpp and apphost.cpp both have.
-- Apphost/Process: src/apphost/apphost.cpp, the reader with its handlers, and run;
-- Handing and Reading below it are proofs.
-- Apphost/PixelCapture: src/apphost/pixel_capture.cpp, how a rectangle becomes the body of a packet.
-- Apphost/UiHost: src/apphost/ui_host_impl.cpp, the host that a plugin believes to be a desktop: its
-- window, its two queues and its loop. Calls, Schedule, Handed, Termination and Mirror below it are
-- proofs; Handed is about what reaches the handlers of the plugin, Schedule has the two threads as a
-- step relation, and Mirror relates the host to the renderer.
-- Gateway/Packets: the helpers at the top of src/gateway/gateway.cpp. Gateway/Chunking and
-- Gateway/AppName are about them.
-- Gateway/Sessions: src/gateway/session_manager.cpp, one function for each method of SessionTable.
-- Gateway/Server: struct Gateway::Impl of src/gateway/gateway.cpp. Server.antt has the connections and
-- their queues, Server/State the fields, Server/Handlers the callbacks and Server/Monitor the monitor
-- thread and the shutdown, Server/Start the start and the destructor, Server/Events what
-- IoPool calls and Server/Release what a lost client leaves.
-- ClientSession and AppHostSession have the same fields and one model, and
-- the functions that the source has twice, once for each, are the same function used on either side.
-- close_session of Gateway::Impl is `close_routed`. Server/Reachable has the callbacks and the threads as
-- steps that come in any order, and the other files below Server are proofs.
-- Gateway/Process: src/gateway/process_manager.cpp. Gateway/Options and Apphost/Options: the command lines
-- of src/gateway/main.cpp and src/apphost/main.cpp; Accepted and Launch below them are proofs, and
-- Gateway/Server/Launching joins the server, the process that it starts and what that one reads.
-- Client/PluginLoader, Apphost/PluginLoader: src/client/plugin_loader.cpp and
-- src/apphost/plugin_loader.cpp, on the dynamic linker of Common/Dl; Lifetime and Once below them are
-- proofs. Client/Program: src/client/main.cpp.
-- Prelude/Text: numbers as std::to_string writes them and strtol and strtoul read them, on 64 bits.
-- Plugins/App2048: plugins/app_2048/app_2048_logic.cpp, the board of the 2048 game. Plugins/Drawing and
-- Plugins/Game: plugins/app_2048/app_2048.cpp, its pixels and its window. Plugins/Demo:
-- plugins/demo_app/demo_app.cpp, and Demo/Painting its pixels. Plugins/Viewer: plugins/client_viewer/client_viewer.cpp;
-- Viewer/Arguments has its command line, Clicks is about what a mouse event addresses, and Shown about
-- the window that a command line starts.
-- Tests: runs at concrete inputs.
--
-- Sequencing: a method that locks a mutex for its whole body is one step. A callback of the gateway is
-- modelled from start to end as one step too, with one reading of the clock; fail_session, whose parts
-- lock separately, is split at transition_to_closing, and what may happen in between is considered in
-- Gateway/Sessions/Closing.
--
-- The environment: IoPool and the operating system are not part of the model. What BeginInput answers
-- and what a fork gives are lists that the state consumes, and what they are asked for is a list of
-- effects. The allowlist and the access checks on files are functions in the configuration. The random
-- generator of the game and the constants of GKC are parameters.
--
-- Fuel: a loop over the packets of a buffer gets one more than the length of the buffer and of a
-- header. Each round takes at least a header from the stream, which is no longer than that, so the
-- loop ends before its fuel does. The chunking loop gets one more than the length of the data, and
-- each round takes at least a byte. The loop of the
-- host gets one more than the events and works that wait, of which each round takes one.
--
-- Not modelled: sockets, threads and processes, but for what their calls answer; signal
-- handlers; the branches for Windows but for the viewer; the third-party GKC library; arithmetic on int that overflows; trace output.
pub mod Prelude
pub mod Protocol
pub mod Common
pub mod Client
pub mod Gateway
pub mod Apphost
pub mod Plugins
pub mod Tests
