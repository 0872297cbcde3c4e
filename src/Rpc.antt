-- ===== src/Rpc.antt =====
-- layer2-services/rpc/rpcserver.cpp. A handler is a function that answers a text or throws.
pub mod Access
mod Tests
use drachma_block_chain.Common.{
  List, [], ℕ, Bool, not, ◌||◌, bytes_eq, Option, none, some, Result, ok, err, throw_if, ◌>>◌,
  unauthorized, method_not_found,
}
use drachma_block_chain.Common.Maps.{Map, find, assign, bytes_key}

abbrev pub Handler : Type 0
Handler = List ℕ → Result (List ℕ)

pub record RpcServer : Type 0 where
  pub user : List ℕ
  pub pass : List ℕ
  pub handlers : Map (List ℕ) Handler

-- The constructor
unfoldable pub new_server : List ℕ → List ℕ → RpcServer
new_server user pass = record { user = user; pass = pass; handlers = [] }

-- `Register`
unfoldable pub register : List ℕ → Handler → RpcServer → RpcServer
register method handler server = record server {
  handlers = assign bytes_key method handler server.handlers;
}

unfoldable pub run_handler : Option Handler → List ℕ → Result (List ℕ)
run_handler none params = err method_not_found
run_handler (some handler) params = handler params

-- `HandleRequest`
unfoldable pub handle_request : RpcServer → List ℕ → List ℕ → List ℕ → List ℕ → Result (List ℕ)
handle_request server user pass method params = do
  throw_if (not (bytes_eq user server.user) || not (bytes_eq pass server.pass)) unauthorized
  run_handler (find bytes_key method server.handlers) params
