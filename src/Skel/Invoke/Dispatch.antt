-- ===== src/Skel/Invoke/Dispatch.antt =====
-- Which part of `invoke` an opcode leads to.
use sd_projeto.Base.{Run, ◌≡◌, ℤ, Option}
use sd_projeto.Message.{MessageT}
use sd_projeto.Message.Opcode
use sd_projeto.Stub.{Rtable}
use sd_projeto.Skel.{Server}
use sd_projeto.Skel.Invoke.{
  invoke_put, del_key, get_key, invoke_size, invoke_getkeys, invoke_gettable, invoke_stats,
  dispatch,
}

module _ {W : Type 0} (exchange : Rtable → MessageT → Run (Option MessageT × W)) (world : W)
    (time : ℤ) (msg : MessageT) (server : Server) where
  pub dispatch-put :
      msg.opcode ≡ Opcode.put
      → dispatch exchange world time msg server ≡ invoke_put exchange world time msg server
  unfolding dispatch
  dispatch-put op = simp op

  pub dispatch-get :
      msg.opcode ≡ Opcode.get
      → dispatch exchange world time msg server ≡ get_key exchange world time msg server msg.key
  unfolding dispatch
  dispatch-get op = simp op

  pub dispatch-del :
      msg.opcode ≡ Opcode.del
      → dispatch exchange world time msg server ≡ del_key exchange world time msg server msg.key
  unfolding dispatch
  dispatch-del op = simp op

  pub dispatch-size :
      msg.opcode ≡ Opcode.size
      → dispatch exchange world time msg server ≡ invoke_size exchange world time msg server
  unfolding dispatch
  dispatch-size op = simp op

  pub dispatch-getkeys :
      msg.opcode ≡ Opcode.getkeys
      → dispatch exchange world time msg server ≡ invoke_getkeys exchange world time msg server
  unfolding dispatch
  dispatch-getkeys op = simp op

  pub dispatch-gettable :
      msg.opcode ≡ Opcode.gettable
      → dispatch exchange world time msg server ≡ invoke_gettable exchange world time msg server
  unfolding dispatch
  dispatch-gettable op = simp op

  pub dispatch-stats :
      msg.opcode ≡ Opcode.stats
      → dispatch exchange world time msg server ≡ invoke_stats exchange world time msg server
  unfolding dispatch
  dispatch-stats op = simp op
