-- ===== src/Tests/Nodes.antt =====
-- An example for the next server: the own node is the second of three.
use sd_projeto.Base.{refl, true, List, [], ◌∷◌, Option, none, some}
use sd_projeto.CString.{CString}
use sd_projeto.Stub.{Rtable}
use sd_projeto.Chain.{children_abs_zpaths, concat_zpath, server_watch_children}
use sd_projeto.Chain.Successor.{IsNext, server_watch_children-successor}
use sd_projeto.Tests.{key_a, key_b, key_c}
use sd_projeto.Tests.Server.{server}

abbrev nodes : List CString
nodes = key_a ∷ key_b ∷ key_c ∷ []

zoo_get : CString → Option CString
zoo_get path = some key_a

connect : CString → Option Rtable
connect address = none

server_watch_children-successor_example :
    IsNext
      (concat_zpath key_b)
      (children_abs_zpaths nodes)
      (server_watch_children zoo_get connect true
        (some nodes)
        (concat_zpath key_b)
        server).next_server_node_path
server_watch_children-successor_example =
    server_watch_children-successor zoo_get connect (concat_zpath key_b) server nodes
      (λ path next ne. unfold zoo_get in refl)
