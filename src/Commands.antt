-- ===== src/Commands.antt =====
-- source/process/controllers: the reading of the requests of clients (RequestParser.cpp), the
-- responses to them (ResponseRender.cpp) and the handlers of the commands (CommandsController.cpp).
-- JSON values `V`, msgpack, boost::trim_if and boost::split at slashes are parameters.
pub mod Parse
pub mod Render
pub mod Handlers
pub mod Path
pub mod Once
pub mod Unended
use fiberproxy.Prelude.{
  ℕ, suc, ◌+◌, Bool, true, false, ◌&&◌, not, List, [], ◌∷◌, ◌++◌, Option, none, some, Bytes, bind,
  ◌⊎◌,
}

-- What the code asks of izenelib's driver::Value; `none` is an exception. Members are by key.
pub record Value (V : Type 0) : Type 0 where
  pub is_array : V → Bool
  pub elements : V → List V
  pub as_string : Bytes → V → Option Bytes
  pub as_int : Bytes → V → Option ℕ
  pub as_bool : Bytes → V → Option Bool

-- msgpack: the packing of a tuple of one string, and its unpacking, with the text of an exception
pub record Msgpack : Type 0 where
  pub pack : Bytes → Bytes
  pub unpack : Bytes → Bytes ⊎ Bytes
