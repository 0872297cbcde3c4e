-- ===== src/Rpc/Access.antt =====
-- Which requests layer2-services/rpc/rpcserver.cpp serves, and by which handler.
use drachma_block_chain.Common.{
  ℕ, ◌≡◌, refl, ap, ◌∙◌, List, [], ◌∷◌, Bool, true, false, not, ◌||◌, bytes_eq, bytes_eq_iff, ◌&&◌,
  if◌then◌else◌, Option, none, some, err, throw_if, ◌>>◌, unauthorized, Bool-cases, inl, inr,
}
use drachma_block_chain.Common.Maps.{find, bytes_key, find-assign, find-assign_other}
use drachma_block_chain.Rpc.{Handler, RpcServer, new_server, register, run_handler, handle_request}

-- Registrations one after the other, and the handler that was given last for a method.
unfoldable pub register_all : List (List ℕ × Handler) → RpcServer → RpcServer
register_all [] server = server
register_all ((method, handler) ∷ rest) server = register_all rest (register method handler server)

abbrev pub last_given : List ℕ → List (List ℕ × Handler) → Option Handler → Option Handler
last_given method [] before = before
last_given method ((m, handler) ∷ rest) before =
    last_given method rest (if bytes_eq m method then some handler else before)

find-register :
    (method m : List ℕ) (handler : Handler) (server : RpcServer)
    → find bytes_key method (register m handler server).handlers
      ≡ (if bytes_eq m method then some handler else find bytes_key method server.handlers)
unfolding register
find-register method m handler server = elim (Bool-cases (bytes_eq m method)) [
  | inl same ↦
      rw (same, (bytes_eq_iff m method).0 same)
        (find-assign bytes_key method handler server.handlers)
  | inr other ↦ rw other (find-assign_other bytes_key m method handler server.handlers other)
]

find-register_all :
    (method : List ℕ) (calls : List (List ℕ × Handler)) (server : RpcServer)
    → find bytes_key method (register_all calls server).handlers
      ≡ last_given method calls (find bytes_key method server.handlers)
unfolding register_all
find-register_all method [] server = refl
find-register_all method ((m, handler) ∷ calls) server =
    find-register_all method calls (register m handler server)
    ∙ ap (last_given method calls) (find-register method m handler server)

same_credentials :
    (calls : List (List ℕ × Handler)) (server : RpcServer)
    → ((register_all calls server).user ≡ server.user)
      × ((register_all calls server).pass ≡ server.pass)
unfolding register_all register
same_credentials [] server = (refl, refl)
same_credentials ((m, handler) ∷ calls) server = same_credentials calls (register m handler server)

by_credentials :
    (u p : Bool) (handler : Option Handler) (params : List ℕ)
    → (throw_if (not u || not p) unauthorized >> run_handler handler params)
      ≡ (if u && p then run_handler handler params else err unauthorized)
by_credentials true true handler params = refl
by_credentials true false handler params = refl
by_credentials false p handler params = refl

-- A request to a server that was set up by any registrations is answered by the handler that was
-- registered last for its method, if both credentials match; it is refused before any look-up
-- otherwise.
pub handle_request_by_last :
    (calls : List (List ℕ × Handler)) (user pass u p method params : List ℕ)
    → handle_request (register_all calls (new_server user pass)) u p method params ≡ (
        if bytes_eq u user && bytes_eq p pass
        then run_handler (last_given method calls none) params
        else err unauthorized)
unfolding handle_request new_server find
handle_request_by_last calls user pass u p method params =
    let server = new_server user pass in
    let (same_user, same_pass) = same_credentials calls server in
    let now = register_all calls server in
    let served = λ (a b : List ℕ) (handler : Option Handler).
      throw_if (not (bytes_eq u a) || not (bytes_eq p b)) unauthorized
      >> run_handler handler params in
    ap (λ a. served a now.pass (find bytes_key method now.handlers)) same_user
    ∙ ap (λ b. served user b (find bytes_key method now.handlers)) same_pass
    ∙ ap (served user pass) (find-register_all method calls server)
    ∙ by_credentials (bytes_eq u user) (bytes_eq p pass) (last_given method calls none) params
