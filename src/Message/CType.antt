-- ===== src/Message/CType.antt =====
-- `MessageT__CType` of include/sdmessage.pb-c.h.
use sd_projeto.Base.{ℕ}

abbrev pub bad : ℕ
bad = 0

abbrev pub entry : ℕ
entry = 10

abbrev pub key : ℕ
key = 20

abbrev pub value : ℕ
value = 30

abbrev pub result : ℕ
result = 40

abbrev pub keys : ℕ
keys = 50

abbrev pub table : ℕ
table = 60

abbrev pub nothing : ℕ
nothing = 70

abbrev pub stats : ℕ
stats = 80
