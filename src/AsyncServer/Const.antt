-- ===== src/AsyncServer/Const.antt =====
-- AsyncServer/const.h.
use boost_learn.Base.{ℕ}

abbrev pub max_length : ℕ
max_length = 2048

abbrev pub head_total_len : ℕ
head_total_len = 4

abbrev pub head_id_len : ℕ
head_id_len = 2

abbrev pub head_data_len : ℕ
head_data_len = 2

abbrev pub max_sendque : ℕ
max_sendque = 1000

-- enum MSG_IDS
abbrev pub msg_hello_world : ℕ
msg_hello_world = 1001
