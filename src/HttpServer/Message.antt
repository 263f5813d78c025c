-- ===== src/HttpServer/Message.antt =====
-- What the server takes from Boost.Beast, jsoncpp and the standard library: requests, responses,
-- JSON and the printing of numbers.
use Prim.Native.String.{String}
use boost_learn.Base.{ℕ, List, Option, Bool}

pub data Verb : Type 0 where
  get : Verb
  post : Verb
  other : String → Verb

pub record Request : Type 0 where
  pub version : ℕ
  pub method : Verb
  pub target : String
  pub body : List ℕ

pub data Status : Type 0 where
  ok : Status
  bad_request : Status
  not_found : Status

-- The two fields that the server sets, and the body as the bytes that are streamed into it.
pub record Response : Type 0 where
  pub version : ℕ
  pub keep_alive : Bool
  pub result : Status
  pub server : Option String
  pub content_type : Option String
  pub body : List ℕ
  pub content_length : Option ℕ

-- jsoncpp: `parse` gives whether the reader accepts the text, and what the root holds afterwards;
-- `member` is `root[key]`, which throws (`none`) unless the root is an object or null;
-- `to_styled_string` prints an object of the given members.
pub record Json : Type 1 where
  pub Value : Type 0
  pub int : ℕ → Value
  pub text : String → Value
  pub parse : List ℕ → Bool × Value
  pub member : Value → String → Option Value
  pub to_styled_string : List (String × Value) → List ℕ
  -- operator<< of an unsigned integer
  pub decimal : ℕ → List ℕ
