-- ===== src/ProtobufServer/Message/Fields.antt =====
-- A small message class for the text of one id and one data, each less than 128, behind its key.
use boost_learn.Base.{ℕ, List, [], ◌∷◌, take, length}
use boost_learn.ProtobufServer.Message.{MsgData}

abbrev read_fields : List ℕ → ℕ × List ℕ
read_fields (key ∷ id ∷ key' ∷ n ∷ rest) = (id, take n rest)
read_fields other = (0, [])

abbrev pub fields : MsgData
fields = record {
  Msg = ℕ × List ℕ;
  parse = read_fields;
  id = λ m. m.0;
  text = λ m. m.1;
  serialize = λ id text. 8 ∷ id ∷ 18 ∷ length text ∷ text;
}
