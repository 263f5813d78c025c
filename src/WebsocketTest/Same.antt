-- ===== src/WebsocketTest/Same.antt =====
-- The two websocket servers do the same, but where the copy of the next message throws.
use boost_learn.Base.{
  ℕ, suc, ◌≡◌, refl, ap, ◌∙◌, List, [], ◌∷◌, ◌++◌, Bool, true, false, Option, none, some, lt→ltb,
  length, arith,
}
use boost_learn.Websocket.Connection.{Connection, Effect, rm_connection}
use boost_learn.Websocket.Connection as Beast
use boost_learn.WebsocketTest.Connection as Test

-- What a callback is called with: an error, and the message of a read. No copy throws.
pub data Callback : Type 0 where
  accepts : Bool → Callback
  reads : Bool → List ℕ → Callback
  writes : Bool → Callback

unfoldable pub call_beast : Connection → Callback → Option (Connection × List Effect)
unfolding Beast.handle_accept Beast.handle_read Beast.handle_write
call_beast c (accepts ec) = some (Beast.handle_accept c ec)
call_beast c (reads ec msg) = some (Beast.handle_read c ec msg)
call_beast c (writes ec) = Beast.handle_write c ec false

unfoldable pub call_test : Connection → Callback → Option (Connection × List Effect)
unfolding Test.accepted Test.read Test.written
call_test c (accepts ec) = some (Test.accepted c ec)
call_test c (reads ec msg) = some (Test.read c ec msg)
call_test c (writes ec) = Test.written c ec false

-- What the calls do after the first, put behind what it did.
abbrev pub and_then :
    Option (Connection × List Effect)
    → (Connection → Option (Connection × List Effect))
    → Option (Connection × List Effect)
and_then none go = none
and_then (some (c, es)) go = elim (go c) [ none ↦ none | some r ↦ some (r.0, es ++ r.1) ]

unfoldable pub run_calls :
    (Connection → Callback → Option (Connection × List Effect))
    → Connection
    → List Callback
    → Option (Connection × List Effect)
run_calls call c [] = some (c, [])
run_calls call c (k ∷ ks) = and_then (call c k) λ c'. run_calls call c' ks

send-same :
    (uuid : ℕ) (q : List (List ℕ)) (msg : List ℕ)
    → Test.async_send (record { uuid = uuid; que_msg = q }) msg
      ≡ Beast.async_send (record { uuid = uuid; que_msg = q }) msg
unfolding Test.async_send Beast.async_send
send-same uuid [] msg = refl
send-same uuid (m ∷ q) msg = rw (lt→ltb 0 (suc (length q)) (omega arith))

pop-same :
    (c : Connection) (q : List (List ℕ)) → Test.pop_and_send c q false ≡ Beast.write_next c q false
unfolding Test.pop_and_send Test.send_front Beast.write_next
pop-same c [] = refl
pop-same c (m ∷ []) = refl
pop-same c (m ∷ n ∷ q) = ap some (send-same c.uuid (n ∷ q) n)

call-same : (c : Connection) (k : Callback) → call_test c k ≡ call_beast c k
unfolding call_test call_beast Test.accepted Test.read Test.written Beast.handle_accept
    Beast.handle_read Beast.handle_write
call-same c (accepts true) = refl
call-same c (accepts false) = refl
call-same c (reads true msg) = refl
call-same c (reads false msg) =
    ap (λ r. some (r.0, r.1 ++ Test.start)) (send-same c.uuid c.que_msg msg)
call-same c (writes true) = refl
call-same c (writes false) = pop-same c c.que_msg

and_then_same :
    (o : Option (Connection × List Effect)) (f g : Connection → Option (Connection × List Effect))
    → ((c : Connection) → f c ≡ g c)
    → and_then o f ≡ and_then o g
and_then_same none f g h = refl
and_then_same (some (c, es)) f g h =
    ap (λ r. elim r [ none ↦ none | some r ↦ some (r.0, es ++ r.1) ]) (h c)

-- Whatever callbacks a connection gets while no copy of a message throws, in whatever order: its queue, and
-- what it asks of the library and of the map of connections, in order, are the same in both programs.
run_calls-same :
    (c : Connection) (ks : List Callback) → run_calls call_test c ks ≡ run_calls call_beast c ks
unfolding run_calls
run_calls-same c [] = refl
run_calls-same c (k ∷ ks) =
    ap (λ o. and_then o λ c'. run_calls call_test c' ks) (call-same c k)
    ∙ and_then_same (call_beast c k) _ _ (λ c'. run_calls-same c' ks)

-- If the copy of the next message throws, beast_websocket takes the connection out of the map, and
-- websocket_test leaves it there; in both the message stays in the queue, and no write is started.
throws-differ :
    (c : Connection) (sent next : List ℕ) (rest : List (List ℕ))
    → c.que_msg ≡ sent ∷ next ∷ rest
    → (Beast.handle_write c false true
        ≡ some (record c { que_msg = next ∷ rest }, rm_connection ∷ []))
      × (Test.written c false true ≡ some (record c { que_msg = next ∷ rest }, []))
unfolding Beast.handle_write Beast.write_next Test.written Test.pop_and_send Test.send_front
throws-differ c sent next rest q =
    (ap (λ t. Beast.write_next c t true) q, ap (λ t. Test.pop_and_send c t true) q)
