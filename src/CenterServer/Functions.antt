-- ===== src/CenterServer/Functions.antt =====
-- CenterServer/CenterServerSession.h: CenterServerSessionGlobalData::def, which registers a function
-- for the calls of the logic servers. dodo::rpc::RpcService is a parameter.
use dserver_framework.Prelude.{ℕ, ◌≡◌, false, Option, none, some, List, bytes_eq}
use dserver_framework.Wire.{PacketLib}
use dserver_framework.CenterServer.{Center}
use dserver_framework.CenterServer.Rpc.{RpcLib, run_with_result}

-- The center server with the lines that its application has logged, newest first.
pub record Served (L : Type 0) : Type 0 where
  pub center : Center
  pub logged : List L

-- What RpcService keeps: a function of the arguments and the request's number. The result is the number
-- that the request keeps, with the state; `none` is a call through a null pointer.
abbrev pub Handler : Type 0 → Type 0
Handler L = List ℕ → ℕ → Served L → Option (ℕ × Served L)

-- RpcService over its state R: def, handleRpc, and the messages of a call and of an answer, by the
-- number of the request.
pub record RpcService (L R : Type 0) : Type 0 where
  pub def : List ℕ → Handler L → R → R
  pub handle_rpc : List ℕ → R → Served L → Option (Served L)
  pub request : ℕ → List ℕ → List ℕ → List ℕ
  pub answer : ℕ → List ℕ → List ℕ

-- handleRpc of a call runs what def registered last under the call's name.
pub record RpcServiceLaws (L R : Type 0) (service : RpcService L R) : Type 0 where
  pub runs :
      (id : ℕ) (name args : List ℕ) (f : Handler L) (r : R) (s : Served L)
      → service.handle_rpc (service.request id name args) (service.def name f r) s
        ≡ elim (f args id s) [ none ↦ none | some done ↦ some done.1 ]
  pub others :
      (id : ℕ) (name other args : List ℕ) (f : Handler L) (r : R) (s : Served L)
      → bytes_eq name other ≡ false
      → service.handle_rpc (service.request id name args) (service.def other f r) s
        ≡ service.handle_rpc (service.request id name args) r s

abbrev pub rpc_of : {L R : Type 0} → RpcService L R → ℕ → RpcLib
rpc_of service id = record { call_message = service.request id; reply_message = service.answer }

-- A function that the application registers, by its type RET: with a result, or void, which may keep
-- the request's number and log.
pub data Functor (L : Type 0) : Type 0 where
  with_result : (List ℕ → List ℕ) → Functor L
  void : (List ℕ → ℕ → List L → List L) → Functor L

module _ {L R : Type 0} (lib : PacketLib) (service : RpcService L R) where
  -- FuckYou<RET>::_insertLambdahelp and FuckYou<void>::_insertLambdahelp
  unfoldable pub insert_lambda_help : Functor L → Handler L
  insert_lambda_help (with_result func) args id s =
      elim (run_with_result lib (rpc_of service id) func args id s.center) [
        | none ↦ none
        | some done ↦ some (done.0, record s { center = done.1 })
      ]
  insert_lambda_help (void func) args id s = some (id, record s { logged = func args id s.logged })

  -- def, regFunctor and _insertLambda
  unfoldable pub register : List ℕ → Functor L → R → R
  unfolding insert_lambda_help
  register name func r = service.def name (insert_lambda_help func) r
