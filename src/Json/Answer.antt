-- ===== src/Json/Answer.antt =====
-- What the callback answers to a request, and when it throws.
use boost_learn.Base.{ℕ, List, ◌++◌, none, some, ◌≡◌, ◌≢◌}
use boost_learn.Platform.{to_short}
use boost_learn.Json.{Json, id_key, data_key, int_member, string_member, answer}

module _ (json : Json) where
  abbrev HasInt : json.Value → List ℕ → ℕ → Type 0
  HasInt v k n = (m : json.Value) × (json.member v k ≡ some (v, m)) × (json.as_int m ≡ some n)

  abbrev HasString : json.Value → List ℕ → List ℕ → Type 0
  HasString v k t = (m : json.Value) × (json.member v k ≡ some (v, m)) × (json.as_string m ≡ some t)

  int_member_lem :
      (v : json.Value) (k : List ℕ) (n : ℕ) → HasInt v k n → int_member json v k ≡ some (v, n)
  unfolding int_member
  int_member_lem v k n (m, e, h) = rw (e, h)

  string_member_lem :
      (v : json.Value) (k t : List ℕ) → HasString v k t → string_member json v k ≡ some (v, t)
  unfolding string_member
  string_member_lem v k t (m, e, h) = rw (e, h)

  keys_differ : data_key ≢ id_key
  keys_differ e = cc

  -- A request is an object with an int as its id and a string as its data.
  pub record IsRequest (v : json.Value) (i : ℕ) (t : List ℕ) : Type 0 where
    pub id_member : json.Value
    pub data_member : json.Value
    pub has_id : json.member v id_key ≡ some (v, id_member)
    pub has_data : json.member v data_key ≡ some (v, data_member)
    pub id_int : json.as_int id_member ≡ some i
    pub data_string : json.as_string data_member ≡ some t

  pub answer_request :
      (prefix msg_data : List ℕ) (i : ℕ) (t : List ℕ)
      → IsRequest (json.parse msg_data) i t
      → (u : json.Value) × (json.assign (json.parse msg_data) data_key (prefix ++ t) ≡ some u)
        × (answer json prefix msg_data ≡ some (json.to_styled_string u, to_short i))
  unfolding answer
  answer_request prefix msg_data i t q =
      let v = json.parse msg_data in
      let (u, e) = json.assign_member v v q.data_member data_key (prefix ++ t) q.has_data in
      let kept =
        json.member-assign v u q.id_member data_key id_key (prefix ++ t) keys_differ e q.has_id in
      let h1 = int_member_lem v id_key i (q.id_member, q.has_id, q.id_int) in
      let h2 = string_member_lem v data_key t (q.data_member, q.has_data, q.data_string) in
      let h3 = int_member_lem u id_key i (q.id_member, kept, q.id_int) in
      (u, e, rw (h1, h2, h2, e, h3))

  -- A root whose id is not an int makes the callback throw.
  pub answer_throws :
      (prefix msg_data : List ℕ)
      → int_member json (json.parse msg_data) id_key ≡ none
      → answer json prefix msg_data ≡ none
  unfolding answer
  answer_throws prefix msg_data h = rw h
