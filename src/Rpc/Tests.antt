-- ===== src/Rpc/Tests.antt =====
-- Runs of layer2-services/rpc/rpcserver.cpp.
use drachma_block_chain.Common.{
  ℕ, List, [], ◌∷◌, ◌++◌, ◌&&◌, if◌then◌else◌, bytes_eq, none, ok, err, ◌≡◌, refl, codes,
  unauthorized, method_not_found,
}
use drachma_block_chain.Common.Maps.{find, assign}
use drachma_block_chain.Rpc.{Handler, new_server, register, run_handler, handle_request}
use drachma_block_chain.Rpc.Access.{register_all, last_given, handle_request_by_last}

abbrev sample_handlers : List (List ℕ × Handler)
sample_handlers =
    (codes "echo", (λ params. ok []))
    ∷ (codes "stop", (λ params. err method_not_found))
    ∷ (codes "echo", (λ params. ok (codes ">" ++ params)))
    ∷ []

echo_answers :
    handle_request
      (register_all sample_handlers (new_server (codes "u") (codes "p")))
      (codes "u")
      (codes "p")
      (codes "echo")
      (codes "hi")
    ≡ ok (codes ">hi")
unfolding handle_request register_all new_server register run_handler find assign bytes_eq
echo_answers = refl

handle_request_by_last_example :
    handle_request
      (register_all sample_handlers (new_server (codes "u") (codes "p")))
      (codes "u")
      (codes "q")
      (codes "echo")
      (codes "hi")
    ≡ (if bytes_eq (codes "u") (codes "u") && bytes_eq (codes "q") (codes "p")
        then run_handler (last_given (codes "echo") sample_handlers none) (codes "hi")
        else err unauthorized)
handle_request_by_last_example =
    handle_request_by_last sample_handlers (codes "u") (codes "p") (codes "u") (codes "q")
      (codes "echo") (codes "hi")
