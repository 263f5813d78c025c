-- ===== src/Json/Objects.antt =====
-- A small jsoncpp: an object is the function of its members, and a text of two chars or more
-- stands for the object whose id is the first and whose data is the rest. It shows that the laws can hold.
use boost_learn.Base.{
  ℕ, List, [], ◌∷◌, ◌++◌, Option, none, some, ◌≡◌, ◌≢◌, refl, ap, ◌∙◌, Bool, true, false,
  if◌then◌else◌, ◌==◌, ==_iff, ◌&&◌, Bool-cases, inl, inr, subst, arith,
}
use boost_learn.Json.{Json, id_key, data_key}

pub data Value : Type 0 where
  null : Value
  number : ℕ → Value
  text : List ℕ → Value
  object : (List ℕ → Value) → Value

abbrev same : List ℕ → List ℕ → Bool
same [] [] = true
same [] (y ∷ ys) = false
same (x ∷ xs) [] = false
same (x ∷ xs) (y ∷ ys) = (x == y) && same xs ys

same→eq : (xs ys : List ℕ) → same xs ys ≡ true → xs ≡ ys
same→eq [] [] e = refl
same→eq [] (y ∷ ys) e = cc
same→eq (x ∷ xs) [] e = cc
same→eq (x ∷ xs) (y ∷ ys) e = let ih = same→eq xs ys in grind (arith, ==_iff x y, ih)

distinct : (xs ys : List ℕ) → xs ≢ ys → same xs ys ≡ false
distinct xs ys ne = elim (Bool-cases (same xs ys)) [
  | inl e ↦ absurd (ne (same→eq xs ys e))
  | inr e ↦ e
]

abbrev with_text : (List ℕ → Value) → List ℕ → List ℕ → List ℕ → Value
with_text f k t k' = if same k k' then text t else f k'

abbrev parse : List ℕ → Value
parse [] = null
parse (i ∷ []) = number i
parse (i ∷ j ∷ rest) =
    object
      λ k. if same k id_key then number i else (if same k data_key then text (j ∷ rest) else null)

abbrev member : Value → List ℕ → Option (Value × Value)
member null k = some (null, null)
member (number n) k = none
member (text t) k = none
member (object f) k = some (object f, f k)

abbrev as_int : Value → Option ℕ
as_int null = some 0
as_int (number n) = some n
as_int (text t) = none
as_int (object f) = none

abbrev as_string : Value → Option (List ℕ)
as_string null = some []
as_string (number n) = some []
as_string (text t) = some t
as_string (object f) = none

abbrev assign : Value → List ℕ → List ℕ → Option Value
assign null k t = some (object (with_text (λ k'. null) k t))
assign (number n) k t = none
assign (text u) k t = none
assign (object f) k t = some (object (with_text f k t))

abbrev chars_of : Value → List ℕ
chars_of null = []
chars_of (number n) = n ∷ []
chars_of (text t) = t
chars_of (object f) = []

abbrev to_styled_string : Value → List ℕ
to_styled_string (object f) = chars_of (f id_key) ++ chars_of (f data_key)
to_styled_string null = []
to_styled_string (number n) = n ∷ []
to_styled_string (text t) = t

abbrev some_pair : Value → Value → Option (Value × Value)
some_pair a b = some (a, b)

pair_parts : (a b : Value) (w m : Value) → some_pair a b ≡ some_pair w m → (a ≡ w) × (b ≡ m)
pair_parts a b w m e =
    let first : Option (Value × Value) → Value = λ o. elim o [ none ↦ a | some p ↦ p.0 ] in
    let second : Option (Value × Value) → Value = λ o. elim o [ none ↦ b | some p ↦ p.1 ] in
    (ap first e, ap second e)

some_parts : (a b : Value) → Option.some a ≡ Option.some b → a ≡ b
some_parts a b e =
    let get : Option Value → Value = λ o. elim o [ none ↦ a | some p ↦ p ] in ap get e

pub member-again :
    (v w m : Value) (k : List ℕ) → member v k ≡ some (w, m) → member w k ≡ some (w, m)
member-again null w m k e =
    let (h, h') = pair_parts null null w m e in
    subst (λ t. member t k ≡ some (t, m)) h (ap (λ u. some (null, u)) h')
member-again (number n) w m k e = absurd (cc)
member-again (text t) w m k e = absurd (cc)
member-again (object f) w m k e =
    let (h, h') = pair_parts (object f) (f k) w m e in
    subst (λ t. member t k ≡ some (t, m)) h (ap (λ u. some (object f, u)) h')

pub assign_member :
    (v w m : Value) (k t : List ℕ)
    → member v k ≡ some (w, m)
    → (u : Value) × (assign w k t ≡ some u)
assign_member null w m k t e =
    let (h, h') = pair_parts null null w m e in
    subst (λ x. (u : Value) × (assign x k t ≡ some u)) h (_, refl)
assign_member (number n) w m k t e = absurd (cc)
assign_member (text u) w m k t e = absurd (cc)
assign_member (object f) w m k t e =
    let (h, h') = pair_parts (object f) (f k) w m e in
    subst (λ x. (u : Value) × (assign x k t ≡ some u)) h (_, refl)

unchanged :
    (f : List ℕ → Value) (k k' t : List ℕ) (m : Value)
    → k ≢ k'
    → f k' ≡ m
    → member (object (with_text f k t)) k' ≡ some (object (with_text f k t), m)
unchanged f k k' t m ne e =
    let same_no = distinct k k' ne in
    ap (λ u. some (object (with_text f k t), u)) (ap (λ b. if b then text t else f k') same_no ∙ e)

pub member-assign :
    (v u m : Value) (k k' t : List ℕ)
    → k ≢ k'
    → assign v k t ≡ some u
    → member v k' ≡ some (v, m)
    → member u k' ≡ some (u, m)
member-assign null u m k k' t ne a e =
    subst (λ x. member x k' ≡ some (x, m)) (some_parts (object (with_text (λ k'. null) k t)) u a)
      (unchanged (λ k'. null) k k' t m ne ((pair_parts null null null m e).1))
member-assign (number n) u m k k' t ne a e = absurd (cc)
member-assign (text x) u m k k' t ne a e = absurd (cc)
member-assign (object f) u m k k' t ne a e =
    subst (λ x. member x k' ≡ some (x, m)) (some_parts (object (with_text f k t)) u a)
      (unchanged f k k' t m ne ((pair_parts (object f) (f k') (object f) m e).1))

abbrev pub json : Json
json = record {
  Value = Value;
  parse = parse;
  member = member;
  as_int = as_int;
  as_string = as_string;
  assign = assign;
  to_styled_string = to_styled_string;
  member-again = member-again;
  assign_member = assign_member;
  member-assign = member-assign;
}
