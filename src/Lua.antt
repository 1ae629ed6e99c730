-- ===== src/Lua.antt =====
-- src/TLuaEngine.cpp, include/TLuaEngine.h, src/TLuaResult.cpp and include/TLuaResult.h: the Lua
-- engine's registry of event handlers, its states with their queues, its timers and its results.
pub mod Registry
pub mod Values
pub mod Freeze
pub mod Results
pub mod Scripts
pub mod Engine
pub mod Loops
pub mod Json
mod Tests
