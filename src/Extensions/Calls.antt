-- ===== src/Extensions/Calls.antt =====
-- The calls of the functions that the center server's application registers.
use dserver_framework.Prelude.{ℕ, ◌^◌, ◌<◌, ◌≡◌, ap, ◌∙◌, Option, none, some, List, ◌∷◌}
use dserver_framework.Wire.{PacketLib}
use dserver_framework.CenterServer.{Center}
use dserver_framework.CenterServer.Functions.{
  Served, RpcService, RpcServiceLaws, insert_lambda_help, Handler,
}
use dserver_framework.Extensions.{
  Line, rpc_handle, MsgpackLib, MsgpackLaws, init_center_server_ext, add_functor, none_functor,
  testrpc_handler, testrpc_name,
}

module _ {R : Type 0} (lib : PacketLib) (service : RpcService Line R)
    (laws : RpcServiceLaws Line R service) (pack : MsgpackLib) (back : MsgpackLaws pack) (r : R)
    (c : Center) (handle id : ℕ) where
  abbrev pub table : R
  table = (init_center_server_ext lib service pack handle r c).0

  abbrev pub calls : List ℕ → List ℕ → Served Line → Option (Served Line)
  calls name args s = service.handle_rpc (service.request id name args) table s

  abbrev pub runs : Handler Line → List ℕ → Served Line → Option (Served Line)
  runs f args s = elim (f args id s) [ none ↦ none | some done ↦ some done.1 ]

  abbrev add_handler : Handler Line
  add_handler = insert_lambda_help lib service (add_functor pack)

  abbrev none_handler : Handler Line
  none_handler = insert_lambda_help lib service none_functor

  -- Each name leads to its function.
  pub calls_testrpc :
      (text : List ℕ) (n : ℕ) (s : Served Line)
      → n < 2 ^ 32
      → calls testrpc_name (pack.pack_text_int text n) s
        ≡ some (record s { logged = rpc_handle text n ∷ s.logged })
  unfolding init_center_server_ext testrpc_handler
  calls_testrpc text n s hn =
      laws.runs id testrpc_name (pack.pack_text_int text n) (testrpc_handler pack) _ s
      ∙ ap (λ (x : List ℕ × ℕ). some (record s { logged = rpc_handle x.0 x.1 ∷ s.logged }))
          (back.text_int_back text n hn)
