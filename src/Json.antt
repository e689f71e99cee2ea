-- ===== src/Json.antt =====
-- The part of rapidjson that FibpServiceMgr.cpp reads: parsed values `J`, seen through the calls of
-- the code. `int_string` is boost::lexical_cast of GetInt(). A call on a value of another kind,
-- such as GetString() on an object, fails an assertion of rapidjson and is not modelled.
use fiberproxy.Prelude.{Bool, List, Option, Bytes}

pub record Json (J : Type 0) : Type 0 where
  -- Parse, with `none` for HasParseError()
  pub parse : Bytes → Option J
  pub is_object : J → Bool
  pub is_array : J → Bool
  -- the members of an object, in order, by GetString() of their names
  pub members : J → List (Bytes × J)
  pub elements : J → List J
  pub get_string : J → Bytes
  pub int_string : J → Bytes
