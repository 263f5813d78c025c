-- ===== src/CoroutineService/Const.antt =====
-- CoroutineService/const.h.
use boost_learn.Base.{ℕ}

abbrev pub max_length : ℕ
max_length = 2048

abbrev pub head_total_len : ℕ
head_total_len = 4

abbrev pub msg_helloworld : ℕ
msg_helloworld = 1001
