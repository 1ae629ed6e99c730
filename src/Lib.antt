-- ===== src/Lib.antt =====
-- The BeamMP server (src/ and include/ of the repository): players connect over TCP, are
-- authenticated, download the server's mods and are given an id and their map; then each sends
-- packets, over TCP or UDP, that the server checks against the client that sent them, hands to Lua
-- handlers and passes on to the other clients.
--
-- The parts, and how they interact:
--
-- - Limiter (include/TConnectionLimiter.h, src/TConnectionLimiter.cpp): a connection that is
--   accepted has a guard of `TConnectionLimiter`. Each method is one step, as it runs under the
--   mutex. Ledger runs it against the list of live guards, Counts is about `GetStats`, Guards about
--   moving a guard.
-- - Client (include/Client.h, include/VehicleData.h, src/Client.cpp): one player's state as a
--   record, and the methods of `TClient` as functions on it. Cars is about the vehicles; Disconnect
--   models `Disconnect` by many threads as an interleaving of its steps. OpenId is the search for a
--   free id that vehicles and clients share.
-- - Ids (`GetPidVid`, `ParsePositionPacket` of src/TServer.cpp): the ids that packets carry.
-- - Compress (`Comp`, `DeComp` of src/Common.cpp, `CompressProperly` of src/TNetwork.cpp).
-- - World: the state that all parts share, with client objects under handles, the set of clients,
--   and a trace of what was written, sent and triggered; the monad of state and exceptions in which
--   the methods are written as do blocks. World/Respects carries a relation along such code.
-- - Network (src/TNetwork.cpp): sending, with Network/Frame and Network/Quiet on what sending
--   leaves alone, and Network/Delivery on `SendToAll`.
-- - Vehicles (`ParseVehicle`, `ShouldSpawn`, `IsUnicycle`, `Apply` of src/TServer.cpp) and Server
--   (`GlobalParser`, `HandleEvent`, `HandlePosition`, and the set of clients): the packets.
-- - Receive (src/TNetwork.cpp): `TCPRcv`, the loop of `Looper` and the datagrams of
--   `UDPServerMain`, which calls `GlobalParser` as the loop over the TCP packets does.
-- - Session (src/TNetwork.cpp): who may join, `OnConnect`, `SyncResources` and `OnDisconnect`;
--   Session/Handshake is `Authentication` as a whole, with the backend's answer as a parameter,
--   and Session/Connection the thread of a connection, `TCPClient`, which puts Receive, Server and
--   Session together. Download: `Parse`, `SendFile` and `SendFileToClient`.
-- - Monitor (src/TPPSMonitor.cpp): the round in which silent players are dropped.
-- - Lua (src/TLuaEngine.cpp, include/TLuaEngine.h, src/TLuaResult.cpp, include/TLuaResult.h): the
--   engine between the server and its plugins. Lua/Registry is `mLuaEvents`, and its child Refines
--   runs it against a plain table of sets; Lua/Engine holds the states with their queues and the
--   timers, and what queues a call (`TriggerEvent`, `EnqueueFunctionCall`, `CreateEventTimer`);
--   Lua/Loops has one round of each of the engine's threads and `WaitForAll`. Lua/Json is the
--   decoding of JSON for plugins and, from src/LuaAPI.cpp, the encoding of tables. Lua/Values,
--   Lua/Freeze, Lua/Results and Lua/Scripts are the values and results that leave a Lua state: a
--   `TLuaResult` is an object under a handle, as a `shared_ptr` names it.
-- - Plugins (src/TLuaPlugin.cpp, src/TLuaEngine.cpp): `CollectAndInitPlugins`, the constructor of
--   `TLuaPlugin`, and the scripts that wait in a state; Plugins/Order is how paths are sorted.
-- - Api (src/LuaAPI.cpp, src/TLuaEngine.cpp, `GetClient` of src/Client.cpp): what plugins ask of the
--   server about players and have it send; Api/Config is `MP.Set` and `MP.Get`.
-- - Settings (include/Settings.h, src/Settings.cpp): the typed settings and the console's rights.
-- - Console (src/TConsole.cpp): how a command line is taken apart, `kick`,
--   `say`, `settings`, `protectmod` and `reloadmods`.
-- - Args (include/ArgsParser.h, src/ArgsParser.cpp): the command line.
-- - Versions (include/Common.h, src/Common.cpp): which launchers are too old, and how their versions
--   are read.
-- - App (src/Common.cpp): the shutdown, the subsystems' states and the check for updates.
-- - Config (src/TConfig.cpp, src/Env.cpp): the settings from the environment and the configuration
--   file; its child File is how they are written, and the life of the file.
-- - Heartbeat (src/THeartbeatThread.cpp): what the backend is told of the server, and when. Session/
--   Identify answers anyone who asks with the last of these texts.
-- - Resources (src/TResourceManager.cpp): the list of the mods that Download offers, their hashes and
--   protection, and mods.json, which remembers them; its child Totals is the count of the mods.
-- - Base: lists, dictionaries, bytes, decimal numbers. Examples: the theorems at concrete inputs.
--
-- Numbers: sizes and ids of packets are natural numbers; an `int` that may be -1 is a `ℤ`; the byte
-- arithmetic of headers and datagram ids is written out. `std::string` and byte vectors are lists
-- of bytes. A client id is below 2^31 in the ids that are read from a packet, as `std::stoi` refuses
-- others.
--
-- Fuel: `open_id` has two passes more than the largest id in use; `de_comp` has two rounds; the
-- queue's loop has one round more than there are packets; `SyncResources` and the loop of
-- `TCPClient` have one round more than the stream has bytes, and the console's loop over arguments
-- one more than their text has; the hashing of a file has one round more than its size;
-- `CancelEventTimers` has one round more than there are timers, and `WaitForAll` one poll for each
-- 10 ms of its deadline and one more; a plugin waits for as many rounds as its state has scripts.
-- That these are enough is proved for all but `SyncResources`.
--
-- Parameters: zlib, nlohmann::json, toml11, OpenSSL's digest, the file system, `sendfile`, what
-- socket and datagram writes answer, what Lua functions return and scripts do, the backend's
-- answers to an authentication, to a heartbeat and to the check for updates, the `double` of the
-- processor with sol2's reading of a number, and what an array holds that is not initialised. What
-- a handler does to the server while it runs, and what other threads do between the steps of one
-- packet or of one round, is not modelled, except in Client/Disconnect and in the sequences of the
-- limiter. The clock stands still during a timer's turn. An array that a table's largest index asks
-- for is given whatever its size.
--
-- Not modelled: logging, the opening of sockets and the accept loop, `ReadWithTimeout`, the other
-- helpers of src/Common.cpp, the rest of the console, src/Http.cpp, the binding code of the Lua
-- engine, the plugin monitor, and the platform code.
pub mod Base
pub mod Limiter
pub mod Lua
pub mod Heartbeat
pub mod Ids
pub mod OpenId
pub mod Plugins
pub mod Client
pub mod Compress
pub mod World
pub mod Network
pub mod Vehicles
pub mod Resources
pub mod Server
pub mod Receive
pub mod Session
pub mod Monitor
pub mod Api
pub mod Config
pub mod Console
pub mod Settings
pub mod Download
pub mod Examples
pub mod Versions
pub mod App
pub mod Args
