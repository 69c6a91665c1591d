-- ===== src/Message/Opcode.antt =====
-- `MessageT__Opcode` of include/sdmessage.pb-c.h. An answer carries the number behind that of its
-- request, so the field of a message is a number.
use sd_projeto.Base.{ℕ}

abbrev pub bad : ℕ
bad = 0

abbrev pub put : ℕ
put = 10

abbrev pub get : ℕ
get = 20

abbrev pub del : ℕ
del = 30

abbrev pub size : ℕ
size = 40

abbrev pub getkeys : ℕ
getkeys = 50

abbrev pub gettable : ℕ
gettable = 60

abbrev pub stats : ℕ
stats = 70

abbrev pub error : ℕ
error = 99
