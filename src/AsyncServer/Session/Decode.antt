-- ===== src/AsyncServer/Session/Decode.antt =====
-- The wire format by itself: a message is its id and the length of its body, two bytes each with
-- the high byte first, and then the body. What a reader of a stream of such bytes has to report.
use boost_learn.Base.{
  ℕ, zero, suc, ◌+◌, ◌*◌, ◌<◌, ◌≡◌, refl, List, [], ◌∷◌, ◌++◌, ltb, if◌then◌else◌, length, take,
  drop, arith, lt→ltb, le→ltb, length-append, take-length_append, drop-length_append,
}
use boost_learn.Platform.{is_negative, exceeds}

pub record Message : Type 0 where
  pub msg_id : ℕ
  pub body : List ℕ

pub data Event : Type 0 where
  message : Message → Event
  ready : Event
  closed : ℕ → Event

-- What is held back at the end of the bytes.
pub data Pending : Type 0 where
  head : List ℕ → Pending
  body : ℕ → ℕ → List ℕ → Pending
  shut : Pending
  broken : Pending
  busy : Pending

pub record Reading : Type 0 where
  pub events : List Event
  pub pending : Pending

abbrev pub with_events : List Event → Reading → Reading
with_events es r = record { events = es ++ r.events; pending = r.pending }

abbrev pub big_endian : ℕ → ℕ → ℕ
big_endian a b = a * 256 + b

abbrev pub waiting : Pending → Reading
waiting w = record { events = ready ∷ []; pending = w }

abbrev pub rejected : ℕ → Reading
rejected uuid = record { events = closed uuid ∷ []; pending = shut }

-- The bytes after a message: a reader that has none left waits.
abbrev pub decode_more : (List ℕ → Reading) → List ℕ → Reading
decode_more decode [] = waiting (head [])
decode_more decode (x ∷ xs) = decode (x ∷ xs)

abbrev pub decode_body : (List ℕ → Reading) → ℕ → ℕ → List ℕ → Reading
decode_body decode msg_id msg_len rest =
    if ltb (length rest) msg_len
    then waiting (body msg_id msg_len rest)
    else with_events (message (record { msg_id = msg_id; body = take msg_len rest }) ∷ [])
        (decode_more decode (drop msg_len rest))

abbrev pub decode_head : ℕ → (List ℕ → Reading) → ℕ → ℕ → List ℕ → Reading
decode_head uuid decode msg_id msg_len rest =
    if exceeds msg_id 2048
    then rejected uuid
    else (if exceeds msg_len 2048
        then rejected uuid
        else (if is_negative msg_len
            then record { events = []; pending = broken }
            else decode_body decode msg_id msg_len rest))

-- On fuel, one for each message.
unfoldable pub decode : ℕ → ℕ → List ℕ → Reading
decode uuid zero bs = record { events = []; pending = busy }
decode uuid (suc fuel) (a ∷ b ∷ c ∷ d ∷ rest) =
    decode_head uuid (decode uuid fuel) (big_endian a b) (big_endian c d) rest
decode uuid (suc fuel) bs = waiting (head bs)

pub decode_short :
    (uuid fuel : ℕ) (bs : List ℕ) → length bs < 4 → decode uuid (suc fuel) bs ≡ waiting (head bs)
unfolding decode
decode_short uuid fuel [] h = refl
decode_short uuid fuel (a ∷ []) h = refl
decode_short uuid fuel (a ∷ b ∷ []) h = refl
decode_short uuid fuel (a ∷ b ∷ c ∷ []) h = refl
decode_short uuid fuel (a ∷ b ∷ c ∷ d ∷ rest) h = absurd (omega arith)

pub decode_more-cons :
    (decode : List ℕ → Reading) (bs : List ℕ) → 0 < length bs → decode_more decode bs ≡ decode bs
decode_more-cons decode [] h = absurd (omega arith)
decode_more-cons decode (x ∷ xs) h = refl

module _ (decode : List ℕ → Reading) (msg_id msg_len : ℕ) where
  pub decode_body_part :
      (bs : List ℕ)
      → length bs < msg_len
      → decode_body decode msg_id msg_len bs ≡ waiting (body msg_id msg_len bs)
  decode_body_part bs h = rw (lt→ltb _ _ h)

  pub decode_body_whole :
      (xs ys : List ℕ)
      → length xs ≡ msg_len
      → decode_body decode msg_id msg_len (xs ++ ys)
        ≡ with_events (message (record { msg_id = msg_id; body = xs }) ∷ []) (decode_more decode ys)
  decode_body_whole xs ys h = rw (
    le→ltb (length (xs ++ ys)) msg_len (omega (arith, length-append xs ys)),
    take-length_append xs ys msg_len h,
    drop-length_append xs ys msg_len h,
  )
