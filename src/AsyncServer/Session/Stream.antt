-- ===== src/AsyncServer/Session/Stream.antt =====
-- The wire format read back: what the decoder makes of messages written one behind the other, and
-- that it ends.
use boost_learn.Base.{
  ℕ, zero, suc, ◌/◌, ◌%◌, ◌≤◌, ◌<◌, ◌≡◌, refl, ap, ap₂, ◌∙◌, List, [], ◌∷◌, ◌++◌, arith, length,
  All, append_assoc, ◌≢◌, lt→leb, drop, length-drop, false,
}
use boost_learn.Platform.{exceeds}
use boost_learn.AsyncServer.Session.Decode.{
  Message, Event, message, head, busy, waiting, with_events, big_endian, decode, decode_head,
  decode_body, decode_more, decode_body_whole, decode_short,
}

abbrev pub encode_head : ℕ → ℕ → List ℕ
encode_head msg_id msg_len = msg_id / 256 ∷ msg_id % 256 ∷ msg_len / 256 ∷ msg_len % 256 ∷ []

abbrev pub encode : Message → List ℕ
encode m = encode_head m.msg_id (length m.body) ++ m.body

-- What the server accepts.
pub record Fits (m : Message) : Type 0 where
  pub id_fits : m.msg_id ≤ 2048
  pub len_fits : length m.body ≤ 2048

unfoldable pub encode_all : List Message → List ℕ
encode_all [] = []
encode_all (m ∷ ms) = encode m ++ encode_all ms

unfoldable pub messages : List Message → List Event
messages [] = []
messages (m ∷ ms) = message m ∷ messages ms

pub not-exceeds : (v : ℕ) → v ≤ 2048 → exceeds v 2048 ≡ false
not-exceeds v h = ground arith

pub decode-encode_head :
    (uuid fuel msg_id msg_len : ℕ) (rest : List ℕ)
    → msg_id ≤ 2048
    → msg_len ≤ 2048
    → decode uuid (suc fuel) (encode_head msg_id msg_len ++ rest)
      ≡ decode_body (decode uuid fuel) msg_id msg_len rest
unfolding decode
decode-encode_head uuid fuel msg_id msg_len rest hi hl =
    let id_back : big_endian (msg_id / 256) (msg_id % 256) ≡ msg_id = omega arith in
    let len_back : big_endian (msg_len / 256) (msg_len % 256) ≡ msg_len = omega arith in
    ap₂ (λ i l. decode_head uuid (decode uuid fuel) i l rest) id_back len_back
    ∙ rw (not-exceeds msg_id hi, not-exceeds msg_len hl, lt→leb 32768 msg_len (omega arith)) refl

decode_more-decode :
    (uuid fuel : ℕ) (bs : List ℕ)
    → decode_more (decode uuid (suc fuel)) bs ≡ decode uuid (suc fuel) bs
unfolding decode
decode_more-decode uuid fuel [] = refl
decode_more-decode uuid fuel (x ∷ xs) = refl

-- Messages that fit, with fewer than four bytes behind them, are reported in order, and the bytes
-- behind them are held back; one unit of fuel for each message and one more are enough.
pub decode-encode_all :
    (uuid : ℕ) (ms : List Message) (tail : List ℕ)
    → All Fits ms
    → length tail < 4
    → decode uuid (suc (length ms)) (encode_all ms ++ tail)
      ≡ with_events (messages ms) (waiting (head tail))
unfolding encode_all messages
decode-encode_all uuid [] tail h few = decode_short uuid 0 tail few
decode-encode_all uuid (m ∷ ms) tail (f, h) few =
    let rest = encode_all ms ++ tail in
    let fuel = suc (length ms) in
    ap (λ t. decode uuid (suc fuel) (encode_head m.msg_id (length m.body) ++ t))
      (append_assoc m.body (encode_all ms) tail)
    ∙ (decode-encode_head uuid fuel m.msg_id (length m.body) (m.body ++ rest) f.id_fits f.len_fits
        ∙ (decode_body_whole (decode uuid fuel) m.msg_id (length m.body) m.body rest refl
            ∙ ap (with_events (message m ∷ []))
                (decode_more-decode uuid (length ms) rest ∙ decode-encode_all uuid ms tail h few)))

-- Each message takes four bytes at least, so as much fuel as there are bytes, and one unit more,
-- ends the decoder.
pub decode-ne-busy :
    (uuid fuel : ℕ) (bs : List ℕ) → length bs < fuel → (decode uuid fuel bs).pending ≢ busy
unfolding decode
decode-ne-busy uuid zero bs h = elim h [ ]
decode-ne-busy uuid (suc fuel) [] h = ground arith
decode-ne-busy uuid (suc fuel) (a ∷ []) h = ground arith
decode-ne-busy uuid (suc fuel) (a ∷ b ∷ []) h = ground arith
decode-ne-busy uuid (suc fuel) (a ∷ b ∷ c ∷ []) h = ground arith
decode-ne-busy uuid (suc fuel) (a ∷ b ∷ c ∷ d ∷ rest) h =
    body_ne_busy (drop (big_endian c d) rest) refl (decode-ne-busy uuid fuel)
  where
    body_ne_busy :
        (bs : List ℕ)
        → drop (big_endian c d) rest ≡ bs
        → ((xs : List ℕ) → length xs < fuel → (decode uuid fuel xs).pending ≢ busy)
        → (decode_head uuid (decode uuid fuel) (big_endian a b) (big_endian c d) rest).pending
          ≢ busy
    body_ne_busy [] e ih = ground (arith, e)
    body_ne_busy (x ∷ xs) e ih =
        ground (arith, ih (x ∷ xs), length-drop (big_endian c d) rest, ap length e)
