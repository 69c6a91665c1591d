-- ===== src/Replicas/Typed.antt =====
-- A line typed at a client, down to the tables of all the servers.
use sd_projeto.CString.{CString}
