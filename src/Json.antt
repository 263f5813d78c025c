-- ===== src/Json.antt =====
-- What the sources take from jsoncpp, and the answer that both logic systems make with it.
-- A text is its list of chars. What throws is `none`.
pub mod Objects
pub mod Answer
use boost_learn.Base.{ℕ, List, [], ◌∷◌, ◌++◌, Option, none, some, ◌≡◌, ◌≢◌}
use boost_learn.Platform.{to_short}

-- `parse` is what `root` holds afterwards, whether the parser accepts the text or not. `member`
-- is `root[key]`, which adds a null member where there is none: the root after it, and the member.
-- `as_int` gives the pattern of the `int`.
pub record Json : Type 1 where
  pub Value : Type 0
  pub parse : List ℕ → Value
  pub member : Value → List ℕ → Option (Value × Value)
  pub as_int : Value → Option ℕ
  pub as_string : Value → Option (List ℕ)
  -- root[key] = text
  pub assign : Value → List ℕ → List ℕ → Option Value
  pub to_styled_string : Value → List ℕ
  -- A member that was there is read without a change.
  pub member-again :
      (v w m : Value) (k : List ℕ) → member v k ≡ some (w, m) → member w k ≡ some (w, m)
  -- An object takes any member.
  pub assign_member :
      (v w m : Value) (k t : List ℕ)
      → member v k ≡ some (w, m)
      → (u : Value) × (assign w k t ≡ some u)
  -- An assignment leaves the other members as they are.
  pub member-assign :
      (v u m : Value) (k k' t : List ℕ)
      → k ≢ k'
      → assign v k t ≡ some u
      → member v k' ≡ some (v, m)
      → member u k' ≡ some (u, m)

-- "id" and "data"
abbrev pub id_key : List ℕ
id_key = 105 ∷ 100 ∷ []

abbrev pub data_key : List ℕ
data_key = 100 ∷ 97 ∷ 116 ∷ 97 ∷ []

infixl 5 ◌>>=◌
abbrev pub ◌>>=◌ {ℓ κ} : {A : Type ℓ} {B : Type κ} → Option A → (A → Option B) → Option B
none >>= f = none
some a >>= f = f a

module _ (json : Json) where
  -- root[key].asInt(), with the root after it
  unfoldable pub int_member : json.Value → List ℕ → Option (json.Value × ℕ)
  int_member root key = do found ← json.member root key; n ← json.as_int found.1; some (found.0, n)

  -- root[key].asString()
  unfoldable pub string_member : json.Value → List ℕ → Option (json.Value × List ℕ)
  string_member root key = do
    found ← json.member root key
    t ← json.as_string found.1
    some (found.0, t)

  -- The callback up to its `Send`: the text and the message id that are sent. The first two
  -- lookups are those of the log line.
  unfoldable pub answer : List ℕ → List ℕ → Option (List ℕ × ℕ)
  unfolding int_member string_member
  answer prefix msg_data = do
    let root = json.parse msg_data
    logged_id ← int_member root id_key
    logged ← string_member logged_id.0 data_key
    text ← string_member logged.0 data_key
    changed ← json.assign text.0 data_key (prefix ++ text.1)
    let return_str = json.to_styled_string changed
    id ← int_member changed id_key
    some (return_str, to_short id.1)
