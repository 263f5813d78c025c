-- ===== src/Clients/Stack.antt =====
-- The char arrays that the clients have on their stacks.
use boost_learn.Base.{
  ℕ, ◌≤◌, ◌≡◌, ap, ◌∙◌, List, arith, length, take, take_all, replicate, length-replicate,
}
use boost_learn.Memory.{overwrite, take-overwrite}

-- char data[2048] = {0}
abbrev pub zeros : List ℕ
zeros = replicate 2048 0

pub length-zeros : length zeros ≡ 2048
length-zeros = length-replicate {A = ℕ} 2048 0

pub text_copied :
    (text : List ℕ)
    → length text ≤ 2048
    → take (length text) (overwrite zeros 0 text 0 (length text)) ≡ text
text_copied text fits =
    let n = length text in
    ap (λ k. take k (overwrite zeros 0 text 0 n)) (omega arith)
    ∙ (take-overwrite zeros 0 text 0 n (omega (arith, length-zeros)) (omega arith)
        ∙ take_all n text (omega arith))
