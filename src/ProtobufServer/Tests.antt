-- ===== src/ProtobufServer/Tests.antt =====
-- The theorems on sessions at concrete inputs, with messages of the shape that msg.proto gives them.
use boost_learn.Base.{
  ℕ, ◌≡◌, refl, List, [], ◌∷◌, ◌++◌, false, none, arith, length, take, replicate, length-append,
  window-append,
}
use boost_learn.Memory.{memset_zero}
use boost_learn.AsyncServer.MsgNode.{MsgNode}
use boost_learn.Platform.LittleEndian.{platform}
use boost_learn.ProtobufServer.Message.{reply}
use boost_learn.ProtobufServer.Message.Fields.{fields}
use boost_learn.ProtobufServer.MsgNode.Encoding.{wire, frame}
use boost_learn.ProtobufServer.Session.{
  Session, Effect, async_read_some, async_write, handle_read, returned, spinning,
}
use boost_learn.ProtobufServer.Session.Whole.{at_head}
use boost_learn.ProtobufServer.Session.Frames.{frames}
use boost_learn.ProtobufServer.Session.Replies.{Replied, handle_read-frames}
use boost_learn.ProtobufServer.Session.Body.{at_body, IsBody}
use boost_learn.ProtobufServer.Session.Split.{body_in_two_reads}

abbrev hi : List ℕ
hi = 8 ∷ 7 ∷ 18 ∷ 2 ∷ b'h' ∷ b'i' ∷ []

abbrev yo : List ℕ
yo = 8 ∷ 9 ∷ 18 ∷ 2 ∷ b'y' ∷ b'o' ∷ []

abbrev buffer : List ℕ
buffer = frames (hi ∷ yo ∷ []) ++ replicate 2032 0

handle_read-frames_example :
    Replied fields platform 7 buffer
      (handle_read fields platform 2
        (at_head 7 (0 ∷ 0 ∷ 205 ∷ []) none buffer [] false)
        false
        (length (frames (hi ∷ yo ∷ []))))
      []
      (hi ∷ yo ∷ [])
unfolding reply frames
handle_read-frames_example =
    handle_read-frames fields platform 7 buffer (0 ∷ 0 ∷ 205 ∷ []) none [] false
      (length (frames (hi ∷ yo ∷ []))) 2 hi (yo ∷ []) refl
      (omega (arith, length-append (frames (hi ∷ yo ∷ [])) (replicate 2032 0)))
      (window-append (frames (hi ∷ yo ∷ [])) (replicate 2032 0))
      ((omega arith, omega arith), ((omega arith, omega arith), tt)) (omega arith) (omega arith)

-- A head that says six bytes, of which two have come.
abbrev begun : MsgNode
begun = record { cur_len = 2; max_len = 6; chars = 8 ∷ 7 ∷ 205 ∷ 205 ∷ 205 ∷ 205 ∷ 205 ∷ [] }

abbrev head : MsgNode
head = record { cur_len = 0; max_len = 2; chars = 0 ∷ 6 ∷ 205 ∷ [] }

abbrev rest : List ℕ
rest = 18 ∷ 2 ∷ b'h' ∷ b'i' ∷ []

begun-IsBody : IsBody begun
begun-IsBody = record { within = omega arith; fits = omega arith; room = refl }

body_in_two_reads_example :
    (full r : MsgNode) × (handle_read fields platform 1 (at_body 7 head begun rest [] false) false 4
      ≡ returned
          (at_body 7 head full (memset_zero rest 2048) ([] ++ r ∷ []) false)
          (async_write r ∷ async_read_some ∷ []))
    × (wire r ≡ frame (take 2 begun.chars ++ take 4 rest))
    × ((s : Session) × (es : List Effect) × (handle_read fields platform 9
            (at_body 7 head full rest [] false)
            false
            4
          ≡ spinning s es))
body_in_two_reads_example =
    body_in_two_reads fields platform 7 head begun rest rest [] [] false false 4 4 0 9 begun-IsBody
      refl (omega arith) (omega arith) (omega arith) (omega arith) (omega arith)
